-- ===== src/Memoria/Bloques.antt =====
-- The block list seen as a tiling of the address space of a process: what the operations of
-- memoria/src/memory.c keep.
pub mod Liberar
pub mod Unir
pub mod Buscar
pub mod Compactar
