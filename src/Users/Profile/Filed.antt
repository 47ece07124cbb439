-- ===== src/Users/Profile/Filed.antt =====
-- Which users of assistants/user_profile.py share a file.

use tokenlyfy_v.Support.{
  some, List, [], ◌∷◌, Bool, true, false, ◌&&◌, ◌||◌, ◌≡◌, refl, sym, ap, ◌∙◌, Bool-cases,
  Option-cases, inl, inr, eqb, ltb, length, if◌then◌else◌, arith,
}
use tokenlyfy_v.Support.Text.{Text, same, same→≡}
use tokenlyfy_v.Users.Profile.{
  UserProfile, Disk, Files, is_empty, or_else, Setting, timeframe_in, risk_in, if_given, with_coins,
  known_coins, path, get, set, profile_of, update, coins_in, update_from_memory_content,
}

same_refl : (t : Text) → same t t ≡ true
unfolding same
same_refl [] = refl
same_refl (c ∷ t) = let e : eqb c c ≡ true = ground arith in rw e (same_refl t)

module _ ⦃files : Files⦄ where
  open files use {is_writable}

  -- A profile that is written is read back by every user whose name makes the same file name, also by
  -- another one than it was written for, and all others read what they read before. Where the file
  -- cannot be opened, nothing changes.
  pub get-set :
      (p : UserProfile) (user : Text) (disk : Disk)
      → get user (set p disk) ≡ (
          if is_writable (path p.user_id) && same (path p.user_id) (path user)
          then some p
          else get user disk)
  unfolding get set
  get-set p user disk = elim (Bool-cases (is_writable (path p.user_id))) [
    | inr e ↦ rw e refl
    | inl e ↦ elim (Bool-cases (same (path p.user_id) (path user))) [
      | inl s ↦ rw (e, get, s) refl
      | inr s ↦ rw (e, get, s) refl
    ]
  ]

  -- Each profile stands in the file that its own identifier names.
  abbrev pub IsFiled : Disk → Type 0
  IsFiled disk =
      (user : Text) (p : UserProfile) → get user disk ≡ some p → path p.user_id ≡ path user

  profile_of-path :
      (disk : Disk) → IsFiled disk → (user : Text) → path (profile_of user disk).user_id ≡ path user
  unfolding profile_of
  profile_of-path disk filed user = elim (Option-cases (get user disk)) [
    | inl e ↦ rw e refl
    | inr (p, e) ↦ rw e (filed user p e)
  ]

  set-IsFiled : (p : UserProfile) (disk : Disk) → IsFiled disk → IsFiled (set p disk)
  set-IsFiled p disk filed user q h =
      elim (Bool-cases (is_writable (path p.user_id) && same (path p.user_id) (path user))) [
        | inr e ↦ filed user q (sym ((rw e at (get-set p user disk))) ∙ h)
        | inl e ↦
            let here : some p ≡ some q = sym ((rw e at (get-set p user disk))) ∙ h in
            let pq : p ≡ q = ap (or_else p) here in
            ap (λ (r : UserProfile). path r.user_id) (sym pq)
            ∙ same→≡ (path p.user_id) (path user) (second _ _ e)
      ]
    where
      second : (a b : Bool) → a && b ≡ true → b ≡ true
      second true b h = h
      second false b h = cc

  set-other :
      (p : UserProfile) (user other : Text) (disk : Disk)
      → path p.user_id ≡ path user
      → same (path user) (path other) ≡ false
      → get other (set p disk) ≡ get other disk
  set-other p user other disk own apart =
      let far : same (path p.user_id) (path other) ≡ false =
        ap (λ name. same name (path other)) own ∙ apart in
      get-set p other disk
      ∙ ap (λ b. if b then some p else get other disk)
          (and_false (is_writable (path p.user_id)) _ far)
    where
      and_false : (a b : Bool) → b ≡ false → a && b ≡ false
      and_false true b h = h
      and_false false b h = refl

  -- Files in which each profile is its own user's stay so under an update from a text, and the update
  -- changes nothing for a user with another file name.
  pub update_from_memory_content-IsFiled :
      (user content other : Text) (disk : Disk)
      → IsFiled disk
      → same (path user) (path other) ≡ false
      → IsFiled (update_from_memory_content user content disk).1
        × (get other (update_from_memory_content user content disk).1 ≡ get other disk)
  unfolding update_from_memory_content
  update_from_memory_content-IsFiled user content other disk filed apart =
      let p : UserProfile = profile_of user disk in
      let p' : UserProfile = record p {
        coins = with_coins p.coins (coins_in known_coins content);
        timeframe = if_given (timeframe_in content) p.timeframe;
        risk_preference = if_given (risk_in content) p.risk_preference;
      } in
      let none_there =
        ltb (length content) 2
        || (is_empty (coins_in known_coins content)
            && is_empty (timeframe_in content)
            && is_empty (risk_in content)) in
      elim (Bool-cases none_there) [
        | inl e ↦ rw (update_from_memory_content, e) (filed, refl)
        | inr e ↦
            rw (update_from_memory_content, e)
              (
                set-IsFiled p' disk filed,
                set-other p' user other disk (profile_of-path disk filed user) apart,
              )
      ]

  -- The same for an update of single fields.
  pub update-IsFiled :
      (user : Text) (settings : List Setting) (disk : Disk)
      → IsFiled disk
      → IsFiled (update user settings disk).1
  unfolding update
  update-IsFiled user settings disk filed = set-IsFiled _ disk filed
