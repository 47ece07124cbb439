-- ===== src/Users/Profile.antt =====
-- `UserProfile` and `UserProfileStore` of assistants/user_profile.py. Log messages are left out.
pub mod Filed
pub mod Coins
mod Tests
use tokenlyfy_v.Support.{
  ℕ, ◌+◌, Option, none, some, List, [], ◌∷◌, ◌++◌, Bool, true, false, not, ◌&&◌, ◌||◌, length, take,
  map, eqb, ltb, if◌then◌else◌,
}
use tokenlyfy_v.Support.Text.{Text, same, strip}
use tokenlyfy_v.Support.Find.{codes, is_in}

pub record UserProfile : Type 0 where
  pub user_id : Text
  pub coins : List Text
  pub timeframe : Text
  pub risk_preference : Text
  pub notes : Text

-- What `json.load` finds in a file: no dictionary, or one in which keys may be missing.
pub data Stored : Type 0 where
  unreadable : Stored
  object :
      (user_id : Option Text) (coins : Option (List Text))
      (timeframe risk_preference notes : Option Text)
      → Stored

-- The files of `base_dir` by name
abbrev pub Disk : Type 0
Disk = Text → Option Stored

-- What the store takes from outside: `\w` of regular expressions, `str.lower`, and whether a file of
-- that name can be opened for writing.
pub record Files : Type 0 where
  pub is_word : ℕ → Bool
  pub lower : Text → Text
  pub is_writable : Text → Bool

abbrev pub is_empty : {A : Type 0} → List A → Bool
is_empty [] = true
is_empty (x ∷ xs) = false

unfoldable pub join : Text → List Text → Text
join separator [] = []
join separator (t ∷ []) = t
join separator (t ∷ s ∷ texts) = t ++ separator ++ join separator (s ∷ texts)

abbrev pub part : Bool → Text → List Text
part test text = if test then text ∷ [] else []

unfoldable pub to_summary : ℕ → UserProfile → Text
unfolding join
to_summary max_len p =
    let s = join (codes "；") (
      part (not (is_empty p.coins)) (codes "主要关注币种：" ++ join (codes ", ") p.coins)
      ++ part (not (is_empty p.timeframe)) (codes "偏好周期：" ++ p.timeframe)
      ++ part (not (is_empty p.risk_preference)) (codes "风险偏好：" ++ p.risk_preference)
      ++ part (not (is_empty p.notes)) (codes "备注：" ++ p.notes)) in
    if ltb max_len (length s) then take max_len s ++ codes "…" else s

-- `d.get(key, default)`
abbrev pub or_else : {A : Type 0} → A → Option A → A
or_else default none = default
or_else default (some a) = a

unfoldable pub member : Text → List Text → Bool
member t [] = false
member t (s ∷ texts) = same t s || member t texts

-- `list(dict.fromkeys(texts))`, where the first list has been read already
unfoldable pub unique_from : List Text → List Text → List Text
unique_from seen [] = []
unique_from seen (t ∷ texts) =
    let rest = unique_from (t ∷ seen) texts in
    let same_rest = unique_from seen texts in
    elim (member t seen) [ true ↦ same_rest | false ↦ t ∷ rest ]

abbrev pub new_profile : Text → UserProfile
new_profile user_id = record {
  user_id = user_id;
  coins = [];
  timeframe = [];
  risk_preference = [];
  notes = [];
}

-- The keyword arguments of `update`; `other` is a name that the profile has not.
pub data Setting : Type 0 where
  user_id_is notes_are timeframe_is risk_preference_is : Text → Setting
  coins_are : List Text → Setting
  other : Setting

unfoldable pub apply_setting : Setting → UserProfile → UserProfile
apply_setting (user_id_is v) p = record p { user_id = v }
apply_setting (notes_are v) p = record p { notes = v }
apply_setting (timeframe_is v) p = record p { timeframe = v }
apply_setting (risk_preference_is v) p = record p { risk_preference = v }
apply_setting (coins_are v) p = record p { coins = v }
apply_setting other p = p

unfoldable pub apply_settings : List Setting → UserProfile → UserProfile
unfolding apply_setting
apply_settings [] p = p
apply_settings (s ∷ settings) p = apply_settings settings (apply_setting s p)

abbrev pub has_any : List Text → Text → Bool
has_any [] content = false
has_any (word ∷ words) content = is_in word content || has_any words content

unfoldable pub timeframe_in : Text → Text
timeframe_in content =
    if is_in (codes "短线") content
    then codes "短线"
    else if has_any (codes "中线" ∷ codes "中长线" ∷ []) content
    then codes "中线"
    else if is_in (codes "长线") content
    then codes "长线"
    else []

unfoldable pub risk_in : Text → Text
risk_in content =
    if has_any (codes "保守" ∷ codes "稳健" ∷ []) content
    then codes "保守"
    else if is_in (codes "激进") content
    then codes "激进"
    else if is_in (codes "中性") content
    then codes "中性"
    else []

abbrev pub known_coins : List (Text × Text)
known_coins =
    (codes "btc", codes "BTC")
    ∷ (codes "eth", codes "ETH")
    ∷ (codes "sol", codes "SOL")
    ∷ (codes "sui", codes "SUI")
    ∷ (codes "bnb", codes "BNB")
    ∷ []

abbrev pub if_given : Text → Text → Text
if_given [] old = old
if_given (c ∷ new) old = c ∷ new

unfoldable pub with_coins : List Text → List Text → List Text
unfolding unique_from
with_coins old [] = old
with_coins old (c ∷ new) = take 10 (unique_from [] (old ++ c ∷ new))

module _ ⦃files : Files⦄ where
  open files use {is_word, lower, is_writable}

  -- The name of the file of a user: every other character becomes a low line.
  unfoldable pub path : Text → Text
  path user_id = map (λ c. if is_word c || eqb c b'-' then c else b'_') user_id

  unfoldable pub get : Text → Disk → Option UserProfile
  unfolding path
  get user disk = elim (disk (path user)) [
    | none ↦ none
    | some unreadable ↦ none
    | some (object u c t r n) ↦ some (record {
      user_id = or_else user u;
      coins = or_else [] c;
      timeframe = or_else [] t;
      risk_preference = or_else [] r;
      notes = or_else [] n;
    })
  ]

  abbrev pub written : Text → Stored → Disk → Disk
  written name content disk name' = if same name name' then some content else disk name'

  -- A file that cannot be opened is left alone.
  unfoldable pub set : UserProfile → Disk → Disk
  unfolding path
  set p disk =
      if is_writable (path p.user_id)
      then written (path p.user_id)
          (object (some p.user_id) (some p.coins) (some p.timeframe) (some p.risk_preference)
            (some p.notes))
          disk
      else disk

  -- `self.get(user_id) or UserProfile(user_id=user_id)`
  unfoldable pub profile_of : Text → Disk → UserProfile
  unfolding get
  profile_of user disk = or_else (new_profile user) (get user disk)

  unfoldable pub update : Text → List Setting → Disk → UserProfile × Disk
  unfolding set profile_of apply_settings
  update user settings disk =
      let p = apply_settings settings (profile_of user disk) in (p, set p disk)

  unfoldable pub coins_in : List (Text × Text) → Text → List Text
  coins_in [] content = []
  coins_in ((c, sym) ∷ known) content =
      part (is_in c (strip (lower content)) || is_in sym content) sym ++ coins_in known content

  unfoldable pub update_from_memory_content : Text → Text → Disk → Bool × Disk
  unfolding set profile_of coins_in timeframe_in risk_in with_coins
  update_from_memory_content user content disk =
      let new_coins = coins_in known_coins content in
      let new_timeframe = timeframe_in content in
      let risk = risk_in content in
      if ltb (length content) 2 || (is_empty new_coins && is_empty new_timeframe && is_empty risk)
      then (false, disk)
      else let p = profile_of user disk in
        (
          true,
          set
              (record p {
                coins = with_coins p.coins new_coins;
                timeframe = if_given new_timeframe p.timeframe;
                risk_preference = if_given risk p.risk_preference;
              })
              disk,
        )
