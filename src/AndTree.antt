-- ===== src/AndTree.antt =====
-- libraries/c4rt/src/andtree.c and libraries/c4rt/include/c4rt/andtree.h: balanced trees of data
-- pointers (Andersson's AA trees), ordered by a caller's `int` key.
-- A tree is what the `leaves` pointers reach. A pointer to a node is the subtree there with the
-- frames above it, nearest first: the frames are what the `parent` pointers lead through.
pub mod Nodes
pub mod Lists
pub mod Order
pub mod Balance
pub mod Insert
pub mod Check
pub mod Remove
pub mod Walk
pub mod Search
mod Tests
