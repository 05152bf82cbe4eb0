-- ===== src/Binmap.antt =====
-- binmap.h and binmap.cpp: `binmap_t`, a set of base bins in a tree of cells whose leaves are bitmaps
-- of 32 base bins.
pub mod Bitmap
pub mod BitmapLaws
pub mod Heap
pub mod Query
pub mod Chain
pub mod Pool
pub mod Reserve
pub mod Start
pub mod Restructure
pub mod Update
pub mod Digits
pub mod Bytes
pub mod First
pub mod Picked
pub mod Found
pub mod Shape
pub mod Uniform
pub mod Masks
pub mod Ask
pub mod Sides
pub mod Rounds
pub mod Leaf
pub mod Walk
pub mod Branches
pub mod Answers
pub mod AsSet
pub mod Leads
pub mod Lift
pub mod Find
pub mod Choice
pub mod RootFound
pub mod FindLaws
pub mod CoverLaws
