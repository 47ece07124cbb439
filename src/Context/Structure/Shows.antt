-- ===== src/Context/Structure/Shows.antt =====
-- Which packets stand in the text that `_structure` of context/builder.py makes.
use mathlib.Core.List.Memᴰ
use mathlib.Core.List.{Memᴰ, append_assoc, append-nil}
use mathlib.Core.Path.{subst}
use tokenlyfy_v.Support.Dict
use tokenlyfy_v.Support.{
  String, Option, none, some, if◌then◌else◌, ◌==◌, All, inl, inr, List, [], ◌∷◌, ◌++◌, Bool, true,
  false, ◌||◌, ◌≡◌, refl, sym, ap, ◌∙◌, keep, Bool-cases, mem-keep_of_mem,
}
use tokenlyfy_v.Support.Text.{Text}
use tokenlyfy_v.Support.Find.{codes}
use tokenlyfy_v.Context.{Value, text, number, Platform, ContextPacket, join, has_type, is_system}
use tokenlyfy_v.Context.Structure.{
  section, evidence_lines, evidence_section, is_evidence, output_section, role_section,
  task_section, state_section, evidence_sections, context_section, sections, structure,
}

-- The part stands somewhere in the text.
pub record Contains (part text : Text) : Type 0 where
  pub before : Text
  pub after : Text
  pub whole : text ≡ before ++ (part ++ after)

Contains-refl : (t : Text) → Contains t t
Contains-refl t = record { before = []; after = []; whole = sym (append-nil t) }

pub Contains-behind :
    {t text : Text} (before : Text) → Contains t text → Contains t (before ++ text)
Contains-behind {t} before c = record {
  before = before ++ c.before;
  after = c.after;
  whole = ap (λ r. before ++ r) c.whole ∙ sym (append_assoc before c.before (t ++ c.after));
}

Contains-front : {t text : Text} (after : Text) → Contains t text → Contains t (text ++ after)
Contains-front {t} after c = record {
  before = c.before;
  after = c.after ++ after;
  whole =
      ap (λ r. r ++ after) c.whole
      ∙ append_assoc c.before (t ++ c.after) after
      ∙ ap (λ r. c.before ++ r) (append_assoc t c.after after);
}

Contains-trans : {s t text : Text} → Contains s t → Contains t text → Contains s text
Contains-trans {s} c d =
    subst (Contains s) (sym d.whole) (Contains-behind d.before (Contains-front d.after c))

join-Contains :
    (separator : Text) (texts : List Text) {t : Text}
    → Memᴰ t texts
    → Contains t (join separator texts)
unfolding join
join-Contains separator [] m = absurd (Memᴰ.not-nil m)
join-Contains separator (s ∷ []) {t} m = elim (Memᴰ.cases_cons m) [
  | inl e ↦ rw e (Contains-refl s)
  | inr later ↦ absurd (Memᴰ.not-nil later)
]
join-Contains separator (s ∷ r ∷ texts) {t} m =
    let rest = join separator (r ∷ texts) in
    elim (Memᴰ.cases_cons m) [
      | inl e ↦ rw e (Contains-front rest (Contains-front separator (Contains-refl s)))
      | inr later ↦ Contains-behind (s ++ separator) (join-Contains separator (r ∷ texts) later)
    ]

module _ ⦃platform : Platform⦄ where
  section-Contains :
      (title : Text) (packets : List ContextPacket) {p : ContextPacket}
      → Memᴰ p packets
      → (s : Text) × Memᴰ s (section title packets) × Contains p.content s
  unfolding section
  section-Contains title [] m = absurd (Memᴰ.not-nil m)
  section-Contains title (q ∷ packets) m = (
    _,
    Memᴰ.head refl,
    Contains-behind title
        (join-Contains (codes "\n") _ (Memᴰ.map (λ (p : ContextPacket). p.content) m)),
  )

  evidence_lines-Contains :
      (packets : List ContextPacket) {p : ContextPacket}
      → Memᴰ p packets
      → Contains p.content (evidence_lines packets)
  unfolding evidence_lines
  evidence_lines-Contains [] m = absurd (Memᴰ.not-nil m)
  evidence_lines-Contains (q ∷ packets) m = elim (Memᴰ.cases_cons m) [
    | inl e ↦
        subst (λ (p : ContextPacket). Contains p.content (evidence_lines (q ∷ packets))) (sym e)
          (Contains-front (evidence_lines packets)
            (Contains-front (codes "\n") (Contains-behind (codes "\n") (Contains-refl q.content))))
    | inr later ↦
        Contains-behind (codes "\n" ++ q.content ++ codes "\n")
          (evidence_lines-Contains packets later)
  ]

  evidence_section-Contains :
      (title : Text) (packets : List ContextPacket) {p : ContextPacket}
      → Memᴰ p packets
      → (s : Text) × Memᴰ s (evidence_section title packets) × Contains p.content s
  unfolding evidence_section
  evidence_section-Contains title [] m = absurd (Memᴰ.not-nil m)
  evidence_section-Contains title (q ∷ packets) m =
      (_, Memᴰ.head refl, Contains-behind title (evidence_lines-Contains (q ∷ packets) m))

  -- The packet has a type for which there is a section.
  abbrev pub is_shown : ContextPacket → Bool
  is_shown p = is_system p || has_type "task_state" p || is_evidence p || has_type "history" p

  in_section :
      (packets : List ContextPacket) (user_query : Text) {p : ContextPacket}
      → Memᴰ p packets
      → is_shown p ≡ true
      → (s : Text) × Memᴰ s (sections packets user_query) × Contains p.content s
  unfolding sections
  in_section packets user_query {p} m shown =
      let end : List Text = output_section ∷ [] in
      let a : List Text = role_section packets in
      let a' : List Text = task_section user_query ∷ state_section packets in
      let b : List Text = evidence_sections packets in
      let d : List Text = context_section packets in
      elim (Bool-cases (is_system p)) [
        | inl system ↦
            let (s, m, c) =
              section-Contains (codes "[Role & Policies]\n") _
                (mem-keep_of_mem is_system m system) in
            (
              s,
              Memᴰ.append_left end
                  (Memᴰ.append_left d (Memᴰ.append_left b (Memᴰ.append_left a' m))),
              c,
            )
        | inr other ↦ elim (Bool-cases (has_type "task_state" p)) [
          | inl state ↦
              let (s, m, c) =
                section-Contains (codes "[State]\n关键进展与未决问题：\n") _
                  (mem-keep_of_mem (has_type "task_state") m state) in
              (
                s,
                Memᴰ.append_left end
                    (Memᴰ.append_left d (Memᴰ.append_left b (Memᴰ.append_right a (Memᴰ.tail m)))),
                c,
              )
          | inr other' ↦ elim (Bool-cases (is_evidence p)) [
            | inl evidence ↦
                let (s, m, c) =
                  evidence_section-Contains (codes "[Evidence]\n事实与引用：\n") _
                    (mem-keep_of_mem is_evidence m evidence) in
                (s, Memᴰ.append_left end (Memᴰ.append_left d (Memᴰ.append_right (a ++ a') m)), c)
            | inr other'' ↦
                let (s, m, c) =
                  section-Contains (codes "[Context]\n对话历史与背景：\n") _ (
                    mem-keep_of_mem (has_type "history") m
                      (last_case other other' other'' shown)) in
                (s, Memᴰ.append_left end (Memᴰ.append_right (a ++ a' ++ b) m), c)
          ]
        ]
      ]
    where
      last_case :
          {a b c d : Bool} → a ≡ false → b ≡ false → c ≡ false → a || b || c || d ≡ true → d ≡ true
      last_case na nb nc h = rw (na, nb, nc) at h

  -- A packet with a type that has a section stands in the text with its whole content.
  pub structure_shows :
      (packets : List ContextPacket) (user_query : Text) {p : ContextPacket}
      → Memᴰ p packets
      → is_shown p ≡ true
      → Contains p.content (structure packets user_query)
  unfolding structure
  structure_shows packets user_query m shown =
      let (s, in_it, c) = in_section packets user_query m shown in
      Contains-trans c (join-Contains (codes "\n\n") _ in_it)

  -- There is no type, or it is a number, or a text that is not the type of a section.
  abbrev pub IsUntold : Option Value → Type 0
  IsUntold none = Unit
  IsUntold (some (number n)) = Unit
  IsUntold (some (text t)) =
      All (λ (type : String). (t == type) ≡ false)
        ("instructions" ∷ "task_state" ∷ "related_memory" ∷ "knowledge_base" ∷ "retrieval"
          ∷ "tool_result" ∷ "history" ∷ [])

  untold_types :
      (p : ContextPacket) (type : Option Value)
      → Dict.get "type" p.metadata ≡ type
      → IsUntold type
      → (is_system p ≡ false)
        × (has_type "task_state" p ≡ false)
        × (is_evidence p ≡ false)
        × (has_type "history" p ≡ false)
  unfolding has_type
  untold_types p none e h =
      (rw (has_type, e) refl, rw (has_type, e) refl, rw (has_type, e) refl, rw (has_type, e) refl)
  untold_types p (some (number n)) e h =
      (rw (has_type, e) refl, rw (has_type, e) refl, rw (has_type, e) refl, rw (has_type, e) refl)
  untold_types p (some (text t)) e (a, (b, (c, (d, (f, (g, (i, u))))))) = (
    rw (has_type, e) a,
    rw (has_type, e) b,
    rw (has_type, e, c, d, f, g) refl,
    rw (has_type, e) i,
  )

  untold-keep :
      (test : ContextPacket → Bool) (xs ys : List ContextPacket) (p : ContextPacket)
      → test p ≡ false
      → keep test (xs ++ p ∷ ys) ≡ keep test (xs ++ ys)
  unfolding keep
  untold-keep test [] ys p h = rw h refl
  untold-keep test (x ∷ xs) ys p h =
      ap (λ r. if test x then x ∷ r else r) (untold-keep test xs ys p h)

  -- A packet whose type is not that of a section, or that has none, changes nothing in the text,
  -- wherever it stands among the packets.
  pub structure_ignores :
      (before after : List ContextPacket) (user_query : Text) (p : ContextPacket)
      → IsUntold (Dict.get "type" p.metadata)
      → structure (before ++ p ∷ after) user_query ≡ structure (before ++ after) user_query
  unfolding structure sections
  structure_ignores before after user_query p untold =
      let (a, b, c, d) = untold_types p (Dict.get "type" p.metadata) refl untold in
      rw
        (
          untold-keep is_system before after p a,
          untold-keep (has_type "task_state") before after p b,
          untold-keep is_evidence before after p c,
          untold-keep (has_type "history") before after p d,
        )
        refl
