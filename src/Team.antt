-- ===== src/Team.antt =====
-- team/src: the trainers, the pokemons that they look for, and their planning.
pub mod Dictionary
pub mod Counts
pub mod Pieces
pub mod State
pub mod Movement
pub mod Arrival
pub mod Matcher
pub mod Nearest
pub mod Candidates
pub mod Matches
pub mod Events
pub mod Planner
pub mod Catch
pub mod Exchange
pub mod Conservation
pub mod Trades
pub mod Scheduling
pub mod Shares
pub mod Accounts
pub mod Start
pub mod Remaining
pub mod Exclusion
pub mod Dispatch
pub mod Steps
pub mod Answers
pub mod Rounds
pub mod Processor
