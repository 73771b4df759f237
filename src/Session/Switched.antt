-- ===== src/Session/Switched.antt =====
-- What a stream does when another week is opened while it is read.
use veckomenyn.Session.{Session}
