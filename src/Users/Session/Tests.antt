-- ===== src/Users/Session/Tests.antt =====
-- core/session.py on a file that holds no identifier yet.
use tokenlyfy_v.Support.{some, true}
use tokenlyfy_v.Support.Text.{Text}
use tokenlyfy_v.Support.Find.{codes}
use tokenlyfy_v.Users.Session.{Storage, Session, readable}

instance abbrev sample_storage : Storage
sample_storage = record {
  digits = λ n. codes "a1b2";
  has_directory = true;
  is_writable = true;
  is_removable = true;
}

abbrev damaged : Session
damaged = record { file = some (readable (codes "who")); drawn = 3 }
