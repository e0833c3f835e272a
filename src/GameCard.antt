-- ===== src/GameCard.antt =====
-- gamecard/src: the game card and its file system.
pub mod State
pub mod Positions
pub mod Bitmap
pub mod Blocks
pub mod Files
pub mod Access
pub mod Updates
pub mod Handlers
pub mod Available
pub mod Growth
pub mod Allotment
pub mod Chunks
pub mod Writing
pub mod Contents
pub mod Rewriting
pub mod Arrivals
pub mod Storing
pub mod NewPokemons
pub mod Places
pub mod Catching
pub mod Released
pub mod Requested
pub mod Create
pub mod Lines
pub mod ArrayText
