-- ===== src/Infer/ChainArray.antt =====
-- infer/datatypes.hpp, infer/chainarray.hpp and infer/chainarray.cpp, with the part of db/db.cpp
-- that appends states to the file of a stack.
pub mod State
pub mod Storage
pub mod Moves
pub mod Ids
pub mod Views
pub mod Flushing
pub mod FlushAll
pub mod Appending
pub mod Clock
pub mod Swapping
mod Tests
