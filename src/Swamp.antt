-- ===== src/Swamp.antt =====
-- The swap process, swamp-v2/src/swamp.c.
pub mod Estado
pub mod Marcos
pub mod Archivos
pub mod Operaciones
pub mod Disposicion
pub mod Espacio
pub mod Guardado
pub mod IdaVuelta
pub mod Grabado
pub mod Fallas
mod Pruebas
