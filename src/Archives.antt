-- ===== src/Archives.antt =====
-- openwhisk/zip.go and openwhisk/tar.go: the walks over an archive and over a folder.
pub mod Tree
pub mod Zip
pub mod RoundTrip
pub mod Tar
pub mod Untarred
