-- ===== src/Effects.antt =====
-- Calls that leave the program, and the programs that make them.
--
-- A reconciler talks to the Kubernetes API server, to the registry over HTTP and to a BMC. Each
-- such call is logged, newest first, in a history, and its answer is a function of the history
-- before it: so the answers may depend on all that was done so far, and whatever other actors do
-- in between is part of that function. The answers are the fields of `Env` (module Env), a
-- parameter of all the code.
pub mod Env
pub mod Keeps
pub mod Rules
pub mod Polling
pub mod Sessions
mod Core
unfoldable pub use Core.*
