-- ===== src/Client/Session/Beside.antt =====
-- The directory of the client's executable, and the file beside it.
use dockerfuse.Base.{append_assoc, ◌≡◌, refl, sym, ◌∙◌, ap, true, List, [], ◌∷◌, ◌++◌, All, arith}
use dockerfuse.Base.Text.{Text, text_eq, has_prefix}
use dockerfuse.Node.Paths.{components, enter, resolve, slashed, clean, child_path}
use dockerfuse.Node.Paths.Children.{
  IsName, no_slash, components-slash, resolve-append, resolve-slashed, child_path-absolute,
}
use dockerfuse.Client.Session.{through_last_slash, up_to_slash, dir}

through_last_slash-no_slash : (p : Text) → no_slash p ≡ true → through_last_slash p ≡ []
unfolding through_last_slash no_slash
through_last_slash-no_slash [] h = refl
through_last_slash-no_slash (c ∷ p) h = ground (arith, through_last_slash-no_slash p)

up_to_slash-some : (c : _) (d q : Text) → up_to_slash c (d ++ (b'/' ∷ q)) ≡ c ∷ (d ++ (b'/' ∷ q))
up_to_slash-some c [] q = refl
up_to_slash-some c (x ∷ d) q = refl

through_last_slash-append :
    (d p : Text) → no_slash p ≡ true → through_last_slash (d ++ (b'/' ∷ p)) ≡ d ++ (b'/' ∷ [])
unfolding through_last_slash
through_last_slash-append [] p h = ap (up_to_slash b'/') (through_last_slash-no_slash p h)
through_last_slash-append (c ∷ d) p h =
    ap (up_to_slash c) (through_last_slash-append d p h) ∙ up_to_slash-some c d []

slashed_snoc :
    (v : Text) (ws : List Text) (p : Text)
    → slashed (v ∷ (ws ++ (p ∷ []))) ≡ slashed (v ∷ ws) ++ (b'/' ∷ p)
unfolding slashed
slashed_snoc v [] p = refl
slashed_snoc v (w ∷ ws) p =
    ap (λ s. v ++ (b'/' ∷ s)) (slashed_snoc w ws p) ∙ sym (append_assoc v _ (b'/' ∷ p))

-- A slash at the end is cleaned away.
clean-slash :
    (ws : List Text)
    → All IsName ws
    → clean (b'/' ∷ (slashed ws ++ (b'/' ∷ []))) ≡ b'/' ∷ slashed ws
unfolding clean components has_prefix resolve enter text_eq
clean-slash ws hs =
    ap (λ l. b'/' ∷ slashed l)
      (ap (resolve true []) (components-slash (slashed ws) [])
        ∙ resolve-append true [] (components (slashed ws)) ([] ∷ [])
        ∙ resolve-slashed true [] ws hs)

dir-root : (p : Text) → IsName p → dir (b'/' ∷ slashed (p ∷ [])) ≡ b'/' ∷ slashed []
unfolding dir slashed clean components has_prefix resolve enter text_eq
dir-root p h = ap clean (through_last_slash-append [] p h.one_part)

dir-absolute :
    (ws : List Text) (p : Text)
    → All IsName ws
    → IsName p
    → dir (b'/' ∷ slashed (ws ++ (p ∷ []))) ≡ b'/' ∷ slashed ws
unfolding dir
dir-absolute [] p hs h = dir-root p h
dir-absolute (v ∷ ws) p hs h =
    ap (λ s. clean (through_last_slash (b'/' ∷ s))) (slashed_snoc v ws p)
    ∙ ap clean (through_last_slash-append (b'/' ∷ slashed (v ∷ ws)) p h.one_part)
    ∙ clean-slash (v ∷ ws) hs

-- The file of another name beside an executable.
pub beside-absolute :
    (ws : List Text) (p q : Text)
    → All IsName ws
    → IsName p
    → IsName q
    → child_path (dir (b'/' ∷ slashed (ws ++ (p ∷ [])))) q ≡ b'/' ∷ slashed (ws ++ (q ∷ []))
beside-absolute ws p q hs hp hq =
    ap (λ d. child_path d q) (dir-absolute ws p hs hp) ∙ child_path-absolute ws q hs hq
