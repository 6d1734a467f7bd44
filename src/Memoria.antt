-- ===== src/Memoria.antt =====
-- The memory process, memoria/src.
pub mod Datos
pub mod Allocs
pub mod Metadatos
pub mod Memalloc
pub mod Direcciones
pub mod Carpinchos
pub mod Memfree
pub mod Bloques
pub mod Invariante
pub mod Escrituras
pub mod Procesos
pub mod Tlb
pub mod Reloj
pub mod Cache
pub mod Marcos
pub mod Swampear
pub mod Paginas
pub mod Lecturas
pub mod Cuentas
pub mod Coherencia
mod PruebasPaginas
mod PruebasVuelve
mod PruebasReleer
mod PruebasLecturas
mod Pruebas
