-- ===== src/Swarm.antt =====
-- swarmmanager.h and swarmmanager.cpp: the manager of the swarms on disk, which finds a swarm by its
-- root hash or its number, keeps at most so many of them active, and puts the idle ones to sleep.
pub mod State
pub mod Data
pub mod Vector
pub mod Search
pub mod Iterator
pub mod Build
pub mod Activate
pub mod VectorLaws
pub mod Location
pub mod Buckets
pub mod BuildLaws
pub mod Oldest
pub mod Invariant
pub mod Sleep
pub mod Idle
pub mod Lru
pub mod Limit
pub mod Start
pub mod Wake
pub mod Success
pub mod Find
pub mod Directory
pub mod Enter
pub mod ListLaws
pub mod Listing
pub mod AddLaws
pub mod AddNew
pub mod RemoveLaws
pub mod Unknown
pub mod Methods
pub mod Runs
pub mod Add
pub mod Remove
