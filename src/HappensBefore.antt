-- ===== src/HappensBefore.antt =====
-- src/Analysis/HappensBeforeGraph.h and HappensBeforeGraph.cpp.
pub mod Syncs
pub mod Graph
pub mod Search
pub mod Query
pub mod Before
pub mod Build
