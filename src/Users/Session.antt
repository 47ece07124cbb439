-- ===== src/Users/Session.antt =====
-- core/session.py: the anonymous identifier of a user, kept in one file. The default directory is left
-- out: the model has the file of one directory.
pub mod Stable
mod Tests
use tokenlyfy_v.Support.{
  ℕ, ◌+◌, Option, none, some, List, [], ◌∷◌, ◌++◌, Bool, true, false, not, ◌&&◌, if◌then◌else◌,
}
use tokenlyfy_v.Support.Text.{Text, strip}
use tokenlyfy_v.Support.Outcome.{Outcome, ok, raise, other_error}
use tokenlyfy_v.Support.Action.{Action}
use tokenlyfy_v.Support.Find.{codes, starts_with}

-- What reading the file gives: its text, an OSError, or bytes that are no text, on which
-- `read_text` raises UnicodeDecodeError.
pub data Content : Type 0 where
  readable : Text → Content
  failing undecodable : Content

-- What the session takes from outside: the first twelve hexadecimal digits of the n-th `uuid4`, and
-- whether the directory is there or can be made, and whether the file can be written and removed.
pub record Storage : Type 0 where
  pub digits : ℕ → Text
  pub has_directory : Bool
  pub is_writable : Bool
  pub is_removable : Bool

pub record Session : Type 0 where
  pub file : Option Content
  pub drawn : ℕ

abbrev pub anonymous : Text
anonymous = codes "anon_"

abbrev pub is_empty : Text → Bool
is_empty [] = true
is_empty (c ∷ t) = false

-- The identifier that the file holds, if it holds one. UnicodeDecodeError is no OSError: it leaves
-- the call.
unfoldable pub kept_id : Option Content → Outcome (Option Text)
kept_id none = ok none
kept_id (some failing) = ok none
kept_id (some undecodable) = raise (other_error "UnicodeDecodeError")
kept_id (some (readable text)) =
    if not (is_empty (strip text)) && starts_with anonymous (strip text)
    then ok (some (strip text))
    else ok none

module _ ⦃storage : Storage⦄ where
  open storage use {digits, has_directory, is_writable, is_removable}

  unfoldable pub generate_id : Session → Text × Session
  generate_id s = (anonymous ++ digits s.drawn, record s { drawn = s.drawn + 1 })

  -- `mkdir` stands before the `try`: where it fails, the call raises.
  unfoldable pub get_anonymous_user_id : Bool → Action Session Text
  unfolding generate_id kept_id
  get_anonymous_user_id false s = let (user_id, s') = generate_id s in (ok user_id, s')
  get_anonymous_user_id true s =
      if not has_directory then (raise (other_error "OSError"), s) else elim (kept_id s.file) [
        | raise e ↦ (raise e, s)
        | ok (some content) ↦ (ok content, s)
        | ok none ↦
            let (user_id, s') = generate_id s in
            (ok user_id, if is_writable then record s' { file = some (readable user_id) } else s')
      ]

  unfoldable pub reset_session : Session → Session
  reset_session s = if is_removable then record s { file = none } else s
