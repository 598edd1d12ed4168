-- ===== src/Proxy.antt =====
-- openwhisk/actionProxy.go and what it serves: the kinds of an uploaded file, the numbered folders
-- under baseDir, the environment of the action, the start of the latest action, and the handlers.
pub mod Kinds
pub mod Folders
pub mod Env
pub mod Extraction
pub mod Zipped
pub mod Launch
pub mod Init
pub mod Numbered
pub mod Extracted
pub mod Uploaded
pub mod Refused
pub mod Served
pub mod Ordered
pub mod Locked
pub mod Once
pub mod Pushed
pub mod Deployed
pub mod Command
pub mod Precompiled
