-- ===== src/Storage.antt =====
-- src/storage and include/mattsql/storage: bytes, tuples, pages, heaps and devices.
pub mod ByteIo
pub mod TupleCodec
pub mod SlottedPage
pub mod Heap
pub mod BlockDevice
pub mod TableStorage
