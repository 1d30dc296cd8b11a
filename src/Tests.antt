-- ===== src/Tests.antt =====
-- The theorems at concrete inputs, and runs of the definitions.
mod OfRing
mod OfBuild
mod OfPaths
mod OfArrays
mod OfMemory
mod OfHashing
mod OfScanner
mod OfJson
mod OfTable
mod OfStatCache
mod OfWriter
mod OfSigning
mod OfSaving
mod OfScanCache
mod OfDeps
mod OfFiles
mod OfPass
