-- ===== src/Logging.antt =====
-- The logging library of glacier/base: the stream, the file and the asynchronous back end.
pub mod FixedBuffer
pub mod Convert
pub mod Stream
pub mod Logger
pub mod Async
pub mod LogFile
pub mod Tests
