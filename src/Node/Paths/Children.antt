-- ===== src/Node/Paths/Children.antt =====
-- The path of a child: no ".", ".." or empty part comes in, so that Clean changes nothing.
use dockerfuse.Base.{
  append_nil, append_assoc, ℕ, ◌≡◌, refl, sym, ◌∙◌, ap, Bool, true, false, List, [], ◌∷◌, ◌++◌,
  ◌==◌, if◌then◌else◌, All, arith, Bool-cases, inl, inr,
}
use dockerfuse.Base.Text.{Text, str, text_eq, has_prefix}
use dockerfuse.Node.Paths.{components, enter, resolve, slashed, or_dot, clean, join, child_path}

unfoldable pub no_slash : Text → Bool
no_slash [] = true
no_slash (c ∷ s) = let rest = no_slash s in if c == b'/' then false else rest

-- A name of a directory entry: not empty, not "." or "..", and without a slash.
pub record IsName (w : Text) : Type 0 where
  pub not_empty : text_eq w [] ≡ false
  pub not_here : text_eq w (str ".") ≡ false
  pub not_up : text_eq w (str "..") ≡ false
  pub one_part : no_slash w ≡ true

components_cons : (s : Text) → (w : Text) × (ws : List Text) × (components s ≡ w ∷ ws)
unfolding components
components_cons [] = ([], [], refl)
components_cons (c ∷ s) = elim (Bool-cases (c == b'/')) [
  | inl slash ↦ ([], components s, rw slash)
  | inr letter ↦ let (w, ws, e) = components_cons s in (c ∷ w, ws, rw (letter, e))
]

components-no_slash : (s : Text) → no_slash s ≡ true → components s ≡ s ∷ []
unfolding components no_slash
components-no_slash [] h = refl
components-no_slash (c ∷ s) h = ground (arith, components-no_slash s)

pub components-slash : (p q : Text) → components (p ++ (b'/' ∷ q)) ≡ components p ++ components q
unfolding components
components-slash [] q = refl
components-slash (c ∷ p) q =
    let (w, ws, e) = components_cons p in ground (arith, e, components-slash p q)

pub resolve-append :
    (r : Bool) (names ws vs : List Text)
    → resolve r names (ws ++ vs) ≡ resolve r (resolve r names ws) vs
unfolding resolve
resolve-append r names [] vs = refl
resolve-append r names (w ∷ ws) vs = resolve-append r (enter r names w) ws vs

enter-IsName :
    (r : Bool) (names : List Text) (w : Text) → IsName w → enter r names w ≡ names ++ (w ∷ [])
unfolding enter
enter-IsName r names w h = rw (h.not_empty, h.not_here, h.not_up)

-- The parts of slashed names are the names.
pub resolve-slashed :
    (r : Bool) (names ws : List Text)
    → All IsName ws
    → resolve r names (components (slashed ws)) ≡ names ++ ws
unfolding resolve slashed components enter text_eq
resolve-slashed r names [] h = sym (append_nil names)
resolve-slashed r names (w ∷ []) (h, hs) =
    ap (resolve r names) (components-no_slash w h.one_part) ∙ enter-IsName r names w h
resolve-slashed r names (w ∷ v ∷ ws) (h, hs) =
    let rest : Text = slashed (v ∷ ws) in
    ap (resolve r names)
      (components-slash w rest ∙ ap (λ l. l ++ components rest) (components-no_slash w h.one_part))
    ∙ ap (λ l. resolve r l (components rest)) (enter-IsName r names w h)
    ∙ resolve-slashed r (names ++ (w ∷ [])) (v ∷ ws) hs
    ∙ append_assoc names (w ∷ []) (v ∷ ws)

resolve-child :
    (r : Bool) (ws : List Text) (w : Text)
    → All IsName ws
    → IsName w
    → resolve r [] (components (slashed ws ++ (b'/' ∷ w))) ≡ ws ++ (w ∷ [])
unfolding resolve
resolve-child r ws w hs h =
    ap (resolve r []) (
      components-slash (slashed ws) w
      ∙ ap (λ l. components (slashed ws) ++ l) (components-no_slash w h.one_part))
    ∙ resolve-append r [] (components (slashed ws)) (w ∷ [])
    ∙ ap (λ l. enter r l w) (resolve-slashed r [] ws hs)
    ∙ enter-IsName r ws w h

pub All-IsName-append :
    (ws : List Text) (w : Text) → All IsName ws → IsName w → All IsName (ws ++ (w ∷ []))
All-IsName-append [] w hs h = (h, tt)
All-IsName-append (v ∷ ws) w (hv, hs) h = (hv, All-IsName-append ws w hs h)

clean-absolute : (ws : List Text) → All IsName ws → clean (b'/' ∷ slashed ws) ≡ b'/' ∷ slashed ws
unfolding clean components has_prefix resolve enter text_eq
clean-absolute ws hs = ap (λ l. b'/' ∷ slashed l) (resolve-slashed true [] ws hs)

-- The path of a child is the path of its directory, a slash and its name, if the names are proper
-- ones.
pub child_path-absolute :
    (ws : List Text) (w : Text)
    → All IsName ws
    → IsName w
    → child_path (b'/' ∷ slashed ws) w ≡ b'/' ∷ slashed (ws ++ (w ∷ []))
unfolding child_path join clean components has_prefix resolve enter text_eq
child_path-absolute ws w hs h =
    ap (λ l. clean (b'/' ∷ slashed l)) (resolve-child true ws w hs h)
    ∙ clean-absolute (ws ++ (w ∷ [])) (All-IsName-append ws w hs h)

relative_start : (w : Text) (q : Text) → IsName w → has_prefix (str "/") (w ++ q) ≡ false
unfolding has_prefix no_slash text_eq
relative_start [] q h = absurd (ground (arith, h.not_empty))
relative_start (c ∷ w) q h = ground (arith, h.one_part)

slashed_start :
    (w : Text) (ws : List Text) → IsName w → has_prefix (str "/") (slashed (w ∷ ws)) ≡ false
unfolding slashed
slashed_start w [] h = ap (has_prefix (str "/")) (sym (append_nil w)) ∙ relative_start w [] h
slashed_start w (v ∷ ws) h = relative_start w _ h

slashed_cons :
    (w : Text) (ws : List Text) → IsName w → (c : ℕ) × (r : Text) × (slashed (w ∷ ws) ≡ c ∷ r)
unfolding slashed text_eq
slashed_cons [] ws h = absurd (ground (arith, h.not_empty))
slashed_cons (c ∷ w) [] h = (c, w, refl)
slashed_cons (c ∷ w) (v ∷ ws) h = (c, _, refl)

or_dot-slashed :
    (w : Text) (ws : List Text) → IsName w → or_dot (slashed (w ∷ ws)) ≡ slashed (w ∷ ws)
or_dot-slashed w ws h = let (c, r, e) = slashed_cons w ws h in rw e

clean-relative :
    (w : Text) (ws : List Text) → All IsName (w ∷ ws) → clean (slashed (w ∷ ws)) ≡ slashed (w ∷ ws)
unfolding clean
clean-relative w ws (h, hs) =
    rw (slashed_start w ws h)
      (ap or_dot (ap slashed (resolve-slashed false [] (w ∷ ws) (h, hs))) ∙ or_dot-slashed w ws h)

join-full : (a b : Text) (c : ℕ) (r : Text) → a ≡ c ∷ r → join a b ≡ clean (a ++ (b'/' ∷ b))
unfolding join
join-full a b c r e = rw e

start-append :
    (a q : Text) (c : ℕ) (r : Text)
    → a ≡ c ∷ r
    → has_prefix (str "/") (a ++ q) ≡ has_prefix (str "/") a
unfolding has_prefix
start-append a q c r e = rw e

clean-child :
    (v : Text) (ws : List Text) (w : Text)
    → All IsName (v ∷ ws)
    → IsName w
    → clean (slashed (v ∷ ws) ++ (b'/' ∷ w)) ≡ slashed (v ∷ (ws ++ (w ∷ [])))
unfolding clean
clean-child v ws w (hv, hs) h =
    let (c, r, e) = slashed_cons v ws hv in
    rw (start-append (slashed (v ∷ ws)) (b'/' ∷ w) c r e, slashed_start v ws hv)
      (ap or_dot (ap slashed (resolve-child false (v ∷ ws) w (hv, hs) h))
        ∙ or_dot-slashed v (ws ++ (w ∷ [])) hv)

-- The child of a relative path is relative too.
pub child_path-relative :
    (ws : List Text) (w : Text)
    → All IsName ws
    → IsName w
    → child_path (slashed ws) w ≡ slashed (ws ++ (w ∷ []))
unfolding child_path join slashed text_eq
child_path-relative [] [] hs h = absurd (ground (arith, h.not_empty))
child_path-relative [] (c ∷ w) hs h =
    ap clean (clean-relative (c ∷ w) [] (h, tt)) ∙ clean-relative (c ∷ w) [] (h, tt)
child_path-relative (v ∷ ws) w (hv, hs) h =
    let (c, r, e) = slashed_cons v ws hv in
    ap clean (join-full (slashed (v ∷ ws)) w c r e ∙ clean-child v ws w (hv, hs) h)
    ∙ clean-relative v (ws ++ (w ∷ [])) (hv, All-IsName-append ws w hs h)
