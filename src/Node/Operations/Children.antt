-- ===== src/Node/Operations/Children.antt =====
-- The paths of the nodes below a mount point at an absolute path.
use dockerfuse.Base.{ℕ, ◌≡◌, ◌∙◌, ap, List, [], ◌∷◌, ◌++◌, All}
use dockerfuse.Base.Text.{Text}
use dockerfuse.Os.{Os}
use dockerfuse.Client.Rpc.{Rpc, Client, Outcome, done, errno, panic, Action}
use dockerfuse.Client.Calls
use dockerfuse.Client.Calls.{StatAttr}
use dockerfuse.Node.Paths.{slashed, child_path}
use dockerfuse.Node.Paths.Children.{
  IsName, child_path-absolute, child_path-relative, All-IsName-append,
}
use dockerfuse.Node.Operations.{
  Node, new_node, Child, Created, answer, ◌>>=◌, ◌>>◌, create, link, lookup, mkdir, symlink, rename,
}

-- The node with these names below the root of the container.
abbrev pub StandsAt : List Text → Node → Type 0
StandsAt ws n = (n.full_path ≡ b'/' ∷ slashed ws) × All IsName ws

-- What an operation gives, if it gives anything.
unfoldable pub Gives : {A : Type 0} → (A → Type 0) → Outcome A → Type 0
Gives P (done a) = P a
Gives P (errno e) = Unit
Gives P panic = Unit

module _ {R : Rpc} where
  Gives-outcome :
      {A B : Type 0} (P : B → Type 0) (f : A → Action R B) (r : Outcome A × Client R)
      → ((a : A) (c : Client R) → Gives P (f a c).0)
      → Gives P
          (elim r.0 as (λ _. Outcome B × Client R) [
            | done a ↦ f a r.1
            | errno e ↦ (errno e, r.1)
            | panic ↦ (panic, r.1)
          ]).0
  unfolding Gives
  Gives-outcome P f (done a, c) h = h a c
  Gives-outcome P f (errno e, c) h = tt
  Gives-outcome P f (panic, c) h = tt

  Gives->>= :
      {A B : Type 0} (P : B → Type 0) (m : Action R A) (f : A → Action R B) (c : Client R)
      → ((a : A) (c' : Client R) → Gives P (f a c').0)
      → Gives P ((m >>= f) c).0
  unfolding ◌>>=◌
  Gives->>= P m f c h = Gives-outcome P f (m c) h

  Gives-answered :
      {A B : Type 0} (P : B → Type 0) (m : Action R A) (g : A → B) (c : Client R)
      → ((a : A) → P (g a))
      → Gives P ((m >>= λ a. answer (g a)) c).0
  unfolding Gives answer
  Gives-answered P m g c h = Gives->>= P m (λ a. answer (g a)) c (λ a c'. h a)

  Gives-answered_second :
      {Z A B : Type 0} (P : B → Type 0) (k : Action R Z) (m : Action R A) (g : A → B) (c : Client R)
      → ((a : A) → P (g a))
      → Gives P ((k >> (m >>= λ a. answer (g a))) c).0
  unfolding ◌>>◌
  Gives-answered_second P k m g c h =
      Gives->>= P k (λ z. m >>= λ a. answer (g a)) c (λ z c'. Gives-answered P m g c' h)

module _ (os : Os) (n : Node) (ws : List Text) (w : Text) (at : StandsAt ws n) (h : IsName w) where
  below : StandsAt (ws ++ (w ∷ [])) (new_node (child_path n.full_path w) [])
  below = (
    ap (λ p. child_path p w) at.0 ∙ child_path-absolute ws w at.1 h,
    All-IsName-append ws w at.1 h,
  )

  -- Whatever inode Create, Lookup, Mkdir, Link or Symlink gives for a proper name in a directory at
  -- a path of proper names stands at the directory's path with that name added.
  pub children_stand_below :
      {R : Rpc} (target : Child) (link_text : Text) (flags mode : ℕ) (c : Client R)
      → Gives
          (λ (r : Created). StandsAt (ws ++ (w ∷ [])) r.child.node)
          (create os n w flags mode c).0
        × Gives (λ (r : Child × StatAttr). StandsAt (ws ++ (w ∷ [])) r.0.node) (lookup os n w c).0
        × Gives
            (λ (r : Child × StatAttr). StandsAt (ws ++ (w ∷ [])) r.0.node)
            (mkdir os n w mode c).0
        × Gives
            (λ (r : Child × StatAttr). StandsAt (ws ++ (w ∷ [])) r.0.node)
            (link os n target w c).0
        × Gives (λ (r : Child). StandsAt (ws ++ (w ∷ [])) r.node) (symlink os n link_text w c).0
  unfolding create lookup mkdir link symlink ◌>>◌
  children_stand_below target link_text flags mode c = (
    Gives-answered _ (Calls.create os (child_path n.full_path w) flags mode) _ c (λ a. below),
    Gives-answered _ (Calls.stat os (child_path n.full_path w)) _ c (λ a. below),
    Gives-answered _ (Calls.mkdir os (child_path n.full_path w) mode) _ c (λ a. below),
    Gives-answered_second _ (Calls.link os target.node.full_path (child_path n.full_path w))
        (Calls.stat os (child_path n.full_path w)) _ c (λ b. below),
    Gives-answered _ (Calls.symlink os link_text (child_path n.full_path w)) _ c (λ a. below),
  )

-- Rename of a name in one directory to a name in another: the source is an absolute path, and the
-- target is relative to the satellite's working directory, since Inode.Path starts at the mount.
pub rename_target_relative :
    {R : Rpc} (os : Os) (n : Node) (ws vs : List Text) (w v : Text) (flags : ℕ)
    → StandsAt ws n
    → IsName w
    → All IsName vs
    → IsName v
    → rename {R = R} os n w (slashed vs) v flags
      ≡ Calls.rename os (b'/' ∷ slashed (ws ++ (w ∷ []))) (slashed (vs ++ (v ∷ []))) flags
unfolding rename
rename_target_relative os n ws vs w v flags at hw hvs hv =
    rw (at.0, child_path-absolute ws w at.1 hw, child_path-relative vs v hvs hv)
