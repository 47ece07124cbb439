-- ===== src/Context/Tests.antt =====
-- context/builder.py on concrete packets, over a platform with numbers for times and for floats, on
-- which the encoding fails, so that a token stands for four characters.

use mathlib.Core.List.{Memᴰ}
use tokenlyfy_v.Support.{
  ℕ, ◌+◌, ◌*◌, ◌/◌, ◌≤◌, ◌<◌, ◌⊎◌, inr, none, some, List, [], ◌∷◌, ◌++◌, true, ◌≡◌, refl, keep, leb,
  ltb, arith,
}
use tokenlyfy_v.Support.Text.{Text, is_space, split_at_space, split, same}
use tokenlyfy_v.Support.Find.{codes}
use tokenlyfy_v.Support.Dict
use tokenlyfy_v.Support.Sort.{sorted}
use tokenlyfy_v.Support.Outcome.{ok, raise, type_error}
use tokenlyfy_v.Context.{
  Platform, text, ContextPacket, ContextConfig, ContextBuilder, count_tokens, get_available_tokens,
  has_type, is_system,
}
use tokenlyfy_v.Context.Select.{member, distinct, relevance, scored, fill, select}
use tokenlyfy_v.Context.Select.Greedy.{tokens, rated}
use tokenlyfy_v.Context.Select.Budget.{select_maximal, select_instructions}
use tokenlyfy_v.Context.Structure.{structure}
use tokenlyfy_v.Context.Structure.Shows.{Contains, IsUntold, structure_shows, structure_ignores}
use tokenlyfy_v.Context.Compress.{split_lines, fitting, compress}
use tokenlyfy_v.Context.Build.{build}
use tokenlyfy_v.Context.Build.Keeps.{build-instructions}

instance abbrev sample_platform : Platform
sample_platform = record {
  World = ℕ;
  Time = ℕ;
  Float = ℕ;
  now = λ w. (w, w + 1);
  lower = λ t. t;
  encode = λ t. none;
  nought = 0;
  ratio = λ a b. a * 100 / b;
  at_least = λ a b. leb b a;
  above = λ a b. ltb b a;
  recency = λ now ts. 0;
  composite = λ r s. r;
  share = λ n r. n;
}

abbrev sample_config : ContextConfig
sample_config = record {
  max_tokens = 20;
  reserve_ratio = 0;
  min_relevance = 30;
  enable_compression = true;
}

abbrev query : Text
query = codes "alpha"

abbrev rules : ContextPacket
rules = record {
  content = codes "be kind";
  timestamp = 0;
  metadata = ("type", text "instructions") ∷ [];
  token_count = 10;
  relevance_score = 0;
}

abbrev talk : ContextPacket
talk = record {
  content = codes "alpha beta";
  timestamp = 0;
  metadata = ("type", text "history") ∷ [];
  token_count = 8;
  relevance_score = 0;
}

abbrev note : ContextPacket
note = record {
  content = codes "alpha";
  timestamp = 0;
  metadata = ("type", text "note") ∷ [];
  token_count = 5;
  relevance_score = 0;
}

abbrev sample_packets : List ContextPacket
sample_packets = talk ∷ rules ∷ note ∷ []

abbrev sample_builder : ContextBuilder
sample_builder = record {
  memory_execute = some (λ search w. (raise type_error, w));
  rag_run = some (λ search w. (ok (codes "alpha is first"), w));
  config = sample_config;
}

program : Unit {0}
unfolding select fill scored relevance distinct member is_space split_at_space split same keep
    has_type Dict.get count_tokens get_available_tokens compress split_lines fitting sorted
program = tt

-- The note would fit into the budget, but not beside what was selected before it.
selected_two :
    (select sample_config query sample_packets 0).0 ≡ rated query rules ∷ rated query talk ∷ []
unfolding program
selected_two = refl

select_maximal_example :
    (tokens (select sample_config query sample_packets 0).0 ≤ get_available_tokens sample_config)
    × (Memᴰ (rated query note) (select sample_config query sample_packets 0).0
        ⊎ (get_available_tokens sample_config
            < tokens (select sample_config query sample_packets 0).0 + note.token_count))
unfolding program
select_maximal_example =
    select_maximal sample_config query sample_packets 0 (Memᴰ.tail (Memᴰ.tail (Memᴰ.head refl)))
      (inr refl)

select_instructions_example :
    Memᴰ (rated query rules) (select sample_config query sample_packets 0).0
    ⊎ (get_available_tokens sample_config
        < tokens (keep is_system (select sample_config query sample_packets 0).0)
          + rules.token_count)
unfolding program
select_instructions_example =
    select_instructions sample_config query sample_packets 0 (Memᴰ.tail (Memᴰ.head refl)) refl

structure_shows_example : Contains talk.content (structure sample_packets query)
unfolding program
structure_shows_example = structure_shows sample_packets query (Memᴰ.head refl) refl

-- A packet of a type that has no section
abbrev weather : ContextPacket
weather = record talk { metadata = ("type", text "weather") ∷ [] }

weather-IsUntold : IsUntold (Dict.get "type" weather.metadata)
unfolding Dict.get
weather-IsUntold = (refl, (refl, (refl, (refl, (refl, (refl, (refl, tt)))))))

structure_ignores_example :
    structure (talk ∷ weather ∷ sample_packets) query ≡ structure (talk ∷ sample_packets) query
structure_ignores_example =
    structure_ignores (talk ∷ []) sample_packets query weather weather-IsUntold

abbrev long_text : Text
long_text =
    codes
      "abcdefghijklmnopqrstuvwxyz abcdefghijklmnopqrstuvwxyz\nabcdefghijklmnopqrstuvwxyz abcdefghijklmnopqrstuvwxyz\n"

abbrev tight_config : ContextConfig
tight_config = record {
  max_tokens = 1;
  reserve_ratio = 0;
  min_relevance = 30;
  enable_compression = true;
}

build-instructions_example :
    (cut : Text) × (more : Text) × ((build sample_builder query []
          (codes "be kind")
          (talk ∷ [])
          0).0
        ++ cut
      ≡ codes "[Role & Policies]\n" ++ (codes "be kind" ++ more))
unfolding program
build-instructions_example =
    build-instructions sample_builder query [] (codes "be kind") (talk ∷ []) 0 refl (omega arith)
