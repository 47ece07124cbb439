-- ===== src/Agents/ToolAware/Chunks.antt =====
-- A text holds one thing only for `stream_run` of agents/tool_aware_agent.py, so that the chunks in
-- which it comes do not matter.

use tokenlyfy_v.Support.{
  ℕ, Option, some, List, [], ◌∷◌, ◌++◌, ◌≡◌, refl, sym, ap, ◌∙◌, length, arith,
}
use tokenlyfy_v.Support.Text.{Text}
use tokenlyfy_v.Support.Find.{find}
use tokenlyfy_v.Agents.ToolAware.{marker, find_tool_call_end, Progress, read_stream}
use tokenlyfy_v.Agents.ToolAware.Extracts.{Extracts, no_call, unclosed, call}
use tokenlyfy_v.Agents.ToolAware.Stream.{joined, read_stream-Extracts}

cut_once : (a b x y : Text) → a ++ x ≡ b ++ y → length a ≡ length b → (a ≡ b) × (x ≡ y)
cut_once [] [] x y h n = (refl, h)
cut_once [] (c ∷ b) x y h n = absurd (omega arith)
cut_once (c ∷ a) [] x y h n = absurd (omega arith)
cut_once (c ∷ a) (d ∷ b) x y h n =
    let (same, rest) : (c ≡ d) × (a ++ x ≡ b ++ y) = ground (arith, h) in
    let (e, f) = cut_once a b x y rest (omega arith) in (cc (same, e), f)

some-eq : {i j : ℕ} {o : Option ℕ} → o ≡ some i → o ≡ some j → i ≡ j
some-eq h k = cc

same_cut :
    {text text' : Text} (a x b y : Text)
    → text ≡ text'
    → text ≡ a ++ x
    → find marker text ≡ some (length a)
    → text' ≡ b ++ y
    → find marker text' ≡ some (length b)
    → (a ≡ b) × (x ≡ y)
same_cut a x b y t w f w' f' =
    cut_once a b x y (sym w ∙ t ∙ w') (some-eq f (ap (find marker) t ∙ f'))

-- A text holds one thing to show, one list of calls and one unfinished end.
Extracts-unique :
    {text text' shown shown' left left' : Text} {calls calls' : List Text}
    → Extracts text shown calls left
    → text ≡ text'
    → Extracts text' shown' calls' left'
    → (shown ≡ shown') × (calls ≡ calls') × (left ≡ left')
Extracts-unique (no_call f s c l) t (no_call f' s' c' l') = (cc, cc, cc)
Extracts-unique (no_call f s c l) t (unclosed w' f' e' c') = absurd cc
Extracts-unique (no_call f s c l) t (call b' i' r' m' o' d' w' f' e' n' s' c' x') = absurd cc
Extracts-unique (unclosed w f e c) t (no_call f' s' c' l') = absurd cc
Extracts-unique (unclosed w f e c) t (unclosed w' f' e' c') =
    let (a, x) = same_cut _ _ _ _ t w f w' f' in (a, c ∙ sym c', x)
Extracts-unique (unclosed w f e c) t (call b' i' r' m' o' d' w' f' e' n' s' c' x') =
    let (_, y) = same_cut _ _ _ _ t w f w' f' in absurd (cc (y, e, e'))
Extracts-unique (call b i r m o d w f e n s c x) t (no_call f' s' c' l') = absurd cc
Extracts-unique (call b i r m o d w f e n s c x) t (unclosed w' f' e' c') =
    let (_, y) = same_cut _ _ _ _ t w f w' f' in absurd (cc (y, e, e'))
Extracts-unique (call b i r m o d w f e n s c x) t (call b' i' r' m' o' d' w' f' e' n' s' c' x') =
    let (a, y) = same_cut _ _ _ _ t w f w' f' in
    let (i≡i', r≡r') =
      cut_once i i' r r' y
        (omega (arith, n, n', some-eq e (ap (λ z. find_tool_call_end z 0) y ∙ e'))) in
    let (ms, os, ls) = Extracts-unique x r≡r' x' in
    (s ∙ cc (a, ms) ∙ sym s', c ∙ cc (i≡i', os) ∙ sym c', ls)

-- Two ways to cut one text into chunks show the same text, find the same calls and keep back the same
-- unfinished end.
pub read_stream-chunks :
    (chunks chunks' : List Text)
    → joined chunks ≡ joined chunks'
    → (p : Progress) × (p' : Progress) × (read_stream [] chunks ≡ some p)
      × (read_stream [] chunks' ≡ some p')
      × (joined p.segments ≡ joined p'.segments)
      × (p.tool_call_texts ≡ p'.tool_call_texts)
      × (p.residual ≡ p'.residual)
read_stream-chunks chunks chunks' same =
    let (p, eq, x) = read_stream-Extracts chunks [] in
    let (p', eq', x') = read_stream-Extracts chunks' [] in
    let (s, c, l) = Extracts-unique x same x' in (p, p', eq, eq', s, c, l)
