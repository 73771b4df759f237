-- ===== src/I18n/En.antt =====
-- web/src/i18n/en.ts: the English dictionary, in four parts.
mod Planning
mod Chat
mod Lifecycle
mod Admin
use veckomenyn.Base.{List, ◌++◌, Text}
use Planning.{en_planning}
use Chat.{en_chat}
use Lifecycle.{en_lifecycle}
use Admin.{en_admin}

abbrev pub en_texts : List (Text × Text)
en_texts = en_planning ++ en_chat ++ en_lifecycle ++ en_admin
