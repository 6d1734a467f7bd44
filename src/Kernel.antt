-- ===== src/Kernel.antt =====
-- The kernel process, kernel/src/kernel.c.
pub mod Estado
pub mod Semaforos
pub mod Colas
pub mod Planificadores
pub mod Poblacion
pub mod Rondas
pub mod Eleccion
pub mod Despertar
mod Pruebas
