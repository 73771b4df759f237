-- ===== src/I18n/Sv.antt =====
-- web/src/i18n/sv.ts: the Swedish dictionary, in four parts.
mod Planning
mod Chat
mod Lifecycle
mod Admin
use veckomenyn.Base.{List, ◌++◌, Text}
use Planning.{sv_planning}
use Chat.{sv_chat}
use Lifecycle.{sv_lifecycle}
use Admin.{sv_admin}

abbrev pub sv_texts : List (Text × Text)
sv_texts = sv_planning ++ sv_chat ++ sv_lifecycle ++ sv_admin
