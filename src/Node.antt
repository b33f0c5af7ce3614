-- ===== src/Node.antt =====
-- Heart/AbstractSpace/abstractnode.h and abstractnode.cpp: the node's table of peers, and what its
-- methods do with it.
--
-- A pointer into the table is the key under which it stands; the table holds no null pointers. What
-- the node writes to sockets is appended to `sent`, a requestError signal to `request_errors`, and
-- the one-shot timers that it starts to `timers`. Mutexes, logging, SSL and threads are left out:
-- each method is one step.
pub mod State
pub mod Send
pub mod Register
pub mod Remove
pub mod Parse
pub mod Trust
pub mod Count
pub mod Answer
pub mod Limit
