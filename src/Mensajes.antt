-- ===== src/Mensajes.antt =====
-- The messages between the library of the processes, the kernel and the memory process: matelib/src/
-- matelib.c, the serialization of kernel/src/kernel.c and memoria/src/server.c.
pub mod Instancia
pub mod Serializar
pub mod IdaVuelta
pub mod Servidor
pub mod Consulta
mod Pruebas
