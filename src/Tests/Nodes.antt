-- ===== src/Tests/Nodes.antt =====
-- The nodes of the mounted tree at concrete inputs.
use dockerfuse.Base.{◌≡◌, refl, ◌+◌, ◌^◌, some, List, [], ◌∷◌, arith}
use dockerfuse.Base.Int.{pos, to_i64, to_u64, to_unsigned}
use dockerfuse.Base.Text.{Text, str, text_eq}
use dockerfuse.Os.{linux, darwin}
use dockerfuse.Satellite.Table.{find}
use dockerfuse.Client.Rpc.{Outcome}
use dockerfuse.Client.Calls.{uintptr, StatAttr}
use dockerfuse.Node.Paths.{slashed}
use dockerfuse.Node.Paths.Children.{IsName, no_slash}
use dockerfuse.Node.Operations
use dockerfuse.Node.Operations.{Node, Child, Created, stable_mode}
use dockerfuse.Node.Operations.Children.{StandsAt, Gives, children_stand_below}
use dockerfuse.Node.Operations.Modes.{regular, stable_mode-type_bits}
use dockerfuse.System.Paths.{seen}
use dockerfuse.System.Handles.{on_file, without, handle_calls_across}
use dockerfuse.System.Tree.{tree_calls_across, flush_then_einval}
use dockerfuse.Tests.Handlers.{F}
use dockerfuse.Tests.Mount.{c, s, conn, einval, flushed, flush_4, listed_4}

is_etc : IsName (str "etc")
unfolding text_eq no_slash
is_etc = record { not_empty = refl; not_here = refl; not_up = refl; one_part = refl }

is_hosts : IsName (str "hosts")
unfolding text_eq no_slash
is_hosts = record { not_empty = refl; not_here = refl; not_up = refl; one_part = refl }

-- A dot in front is part of a name.
is_hidden : IsName (str ".x")
unfolding text_eq no_slash
is_hidden = record { not_empty = refl; not_here = refl; not_up = refl; one_part = refl }

abbrev etc : Node
etc = record { node_data = []; full_path = str "/etc" }

etc_stands : StandsAt (str "etc" ∷ []) etc
unfolding slashed
etc_stands = (refl, (is_etc, tt))

abbrev target : Child
target = record { node = etc; stable = record { mode = 16384; ino = 7 } }

children_stand_below_example :
    let ws : List Text = str "etc" ∷ str "hosts" ∷ [] in
    Gives
      (λ (r : Created). StandsAt ws r.child.node)
      (Operations.create darwin etc (str "hosts") 1 420 (conn s)).0
    × Gives
        (λ (r : Child × StatAttr). StandsAt ws r.0.node)
        (Operations.lookup darwin etc (str "hosts") (conn s)).0
    × Gives
        (λ (r : Child × StatAttr). StandsAt ws r.0.node)
        (Operations.mkdir darwin etc (str "hosts") 420 (conn s)).0
    × Gives
        (λ (r : Child × StatAttr). StandsAt ws r.0.node)
        (Operations.link darwin etc target (str "hosts") (conn s)).0
    × Gives
        (λ (r : Child). StandsAt ws r.node)
        (Operations.symlink darwin etc (str "/tmp") (str "hosts") (conn s)).0
children_stand_below_example =
    children_stand_below darwin etc (str "etc" ∷ []) (str "hosts") etc_stands is_hosts target
      (str "/tmp") 1 420 (conn s)

tree_calls_across_example :
    let path : Text = str "/etc/hosts" in
    (Operations.unlink darwin etc (str "hosts") (conn s)
      ≡ seen F linux darwin c s (F.remove path s.world))
    × (Operations.rmdir darwin etc (str "hosts") (conn s)
        ≡ seen F linux darwin c s (F.remove path s.world))
    × (Operations.readlink darwin etc (conn s)
        ≡ seen F linux darwin c s (F.readlink (str "/etc") s.world))
    × (Operations.rename darwin etc (str "hosts") (slashed (str "etc" ∷ [])) (str ".x") 0 (conn s)
        ≡ seen F linux darwin c s (F.rename path (str "etc/.x") s.world))
unfolding slashed
tree_calls_across_example =
    tree_calls_across F linux darwin c s etc (str "etc" ∷ []) (str "etc" ∷ []) (str "hosts")
      (str ".x") 0 etc_stands is_hosts (is_etc, tt) is_hidden

handle_calls_across_example :
    (Operations.write darwin etc (uintptr 4) (7 ∷ []) (pos 0) (conn s)
      ≡ on_file F linux darwin c s
          (some 4)
          s
          (to_unsigned (2 ^ 32))
          (λ f. F.write_at f (7 ∷ []) (pos 0)))
    × (Operations.lseek darwin etc (uintptr 4) 5 0 (conn s)
        ≡ on_file F linux darwin c s (some 4) s to_u64 (λ f. F.seek f (to_i64 5) (pos 0)))
    × (Operations.fsync darwin etc (uintptr 4) 0 (conn s)
        ≡ on_file F linux darwin c s (some 4) s (λ v. v) F.sync)
    × (Operations.flush darwin etc (uintptr 4) (conn s)
        ≡ on_file F linux darwin c s (some 4) (without F linux darwin c s 4) (λ v. v) F.close)
    × (Operations.release darwin etc (uintptr 4) (conn s)
        ≡ on_file F linux darwin c s (some 4) (without F linux darwin c s 4) (λ v. v) F.close)
unfolding find
handle_calls_across_example = handle_calls_across F linux darwin c s etc 4 5 0 0 (pos 0) (7 ∷ [])

flush_then_einval_example :
    (Operations.flush darwin etc (uintptr 4) (conn s) ≡ (Outcome.done tt, conn flushed))
    × (Operations.release darwin etc (uintptr 4) (conn flushed) ≡ (einval, conn flushed))
    × (Operations.read darwin etc (uintptr 4) 10 (pos 0) (conn flushed) ≡ (einval, conn flushed))
    × (Operations.write darwin etc (uintptr 4) (7 ∷ []) (pos 0) (conn flushed)
        ≡ (einval, conn flushed))
    × (Operations.fsync darwin etc (uintptr 4) 0 (conn flushed) ≡ (einval, conn flushed))
flush_then_einval_example =
    flush_then_einval F linux darwin c s etc 4 10 0 0 (pos 0) (7 ∷ []) 4 flushed.world listed_4
      flush_4

stable_mode-type_bits_example : stable_mode (32768 + 420) ≡ 32768
stable_mode-type_bits_example = stable_mode-type_bits regular 420 (omega arith)
