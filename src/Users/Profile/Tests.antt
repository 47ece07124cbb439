-- ===== src/Users/Profile/Tests.antt =====
-- assistants/user_profile.py on two users whose names make one file name.
use tokenlyfy_v.Support.{
  ◌≤◌, none, some, List, [], ◌∷◌, ◌++◌, true, ◌&&◌, ◌≡◌, refl, length, leb, if◌then◌else◌, arith,
}
use tokenlyfy_v.Support.Text.{Text, same, strip, is_space}
use tokenlyfy_v.Support.Find.{codes, is_in, find, starts_with}
use tokenlyfy_v.Users.Profile.{
  UserProfile, Disk, Files, new_profile, unique_from, member, with_coins, timeframe_in, risk_in,
  path, get, set, profile_of, coins_in, update_from_memory_content,
}
use tokenlyfy_v.Users.Profile.Coins.{IsUnique, with_coins-IsUnique}
use tokenlyfy_v.Users.Profile.Filed.{get-set, IsFiled, update_from_memory_content-IsFiled}

instance abbrev sample_files : Files
sample_files = record {
  is_word = λ c. leb b'a' c && leb c b'z';
  lower = λ t. t;
  is_writable = λ name. true;
}

abbrev empty : Disk
empty name = none

abbrev dotted : UserProfile
dotted = record (new_profile (codes "a.b")) { notes = codes "n" }

program : Unit {0}
unfolding get set path profile_of update_from_memory_content coins_in timeframe_in risk_in
    with_coins unique_from member is_in find starts_with strip is_space same
program = tt

-- The profile of one user is read for another.
shared_file : get (codes "a:b") (set dotted empty) ≡ some dotted
unfolding program
shared_file = refl

-- The word "method" counts as an interest in a coin.
word_taken_for_coin :
    (profile_of (codes "u") (update_from_memory_content (codes "u") (codes "method") empty).1).coins
    ≡ codes "ETH" ∷ []
unfolding program
word_taken_for_coin = refl

get-set_example : get (codes "a:b") (set dotted empty) ≡ (
    if true && same (path dotted.user_id) (path (codes "a:b"))
    then some dotted
    else get (codes "a:b") empty)
get-set_example = get-set dotted (codes "a:b") empty

empty-IsFiled : IsFiled empty
unfolding get
empty-IsFiled user p h = cc

update_from_memory_content-IsFiled_example :
    IsFiled (update_from_memory_content (codes "u") (codes "btc") empty).1
    × (get (codes "v") (update_from_memory_content (codes "u") (codes "btc") empty).1
        ≡ get (codes "v") empty)
unfolding program
update_from_memory_content-IsFiled_example =
    update_from_memory_content-IsFiled (codes "u") (codes "btc") (codes "v") empty empty-IsFiled
      refl

with_coins-IsUnique_example :
    (more : List Text) × (with_coins (codes "ETH" ∷ []) (codes "BTC" ∷ codes "ETH" ∷ [])
      ≡ (codes "ETH" ∷ []) ++ more)
    × IsUnique [] (with_coins (codes "ETH" ∷ []) (codes "BTC" ∷ codes "ETH" ∷ []))
    × (length (with_coins (codes "ETH" ∷ []) (codes "BTC" ∷ codes "ETH" ∷ [])) ≤ 10)
unfolding program
with_coins-IsUnique_example =
    with_coins-IsUnique (codes "ETH" ∷ []) (codes "BTC" ∷ codes "ETH" ∷ []) (refl, tt) (omega arith)
