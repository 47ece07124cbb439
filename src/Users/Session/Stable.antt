-- ===== src/Users/Session/Stable.antt =====
-- When core/session.py gives one user one identifier.

use tokenlyfy_v.Support.Text.{Text}
use tokenlyfy_v.Users.Session.{Session}
