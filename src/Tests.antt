-- ===== src/Tests.antt =====
-- Tests on concrete inputs, and the theorems of the library at inputs that meet their hypotheses.
mod Samples
mod ReceiveTests
mod DataTests
mod InfoTests
mod NodeTests
mod CacheSamples
mod CacheTests
mod DatabaseTests
mod SocketTests
mod RouterTests
mod ServerTests
mod ClientTests
mod NetworkTests
mod SqlTests
mod KeyTests
mod PackageSamples
mod PackageTests
mod MemberTests
mod AsyncTests
mod DiskTests
