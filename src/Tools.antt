-- ===== src/Tools.antt =====
-- The tool layer (runtime/src/tools).
pub mod Error
pub mod TimeoutConfig
pub mod Registry
pub mod Effects
pub mod Inversion
pub mod SampleJson
pub mod Mock
pub mod WebSearch
pub mod UrlFetch
pub mod CodeExec
pub mod SampleDaemon
