-- ===== src/Client/Session/Laws.antt =====
-- What each step of the set-up does, as equations between answers.
use dockerfuse.Base.{◌≡◌, ◌++◌, arith}
use dockerfuse.Base.Text.{Text}
use dockerfuse.Client.Rpc.{Rpc, Reply, reply, error, Client}
use dockerfuse.Client.Session.{Host, Session, ask, ◌>>=◌, ◌>>◌, wrapping}

module _ {R : Rpc} (H : Host R) where
  pub >>=-reply :
      {A B : Type 0} (m : Session H A) (f : A → Session H B) (s t : Client R × H.World) (a : A)
      → m s ≡ (reply a, t)
      → ◌>>=◌ H m f s ≡ f a t
  unfolding ◌>>=◌
  >>=-reply m f s t a e = ground arith

  pub >>-reply :
      {A B : Type 0} (m : Session H A) (k : Session H B) (s t : Client R × H.World) (a : A)
      → m s ≡ (reply a, t)
      → ◌>>◌ H m k s ≡ k t
  unfolding ◌>>◌
  >>-reply m k s t a e = >>=-reply m (λ _. k) s t a e

  pub ask-reply :
      {A : Type 0} (call : H.World → Reply A × H.World) (c : Client R) (w w' : H.World) (a : A)
      → call w ≡ (reply a, w')
      → ask H call (c, w) ≡ (reply a, (c, w'))
  unfolding ask
  ask-reply call c w w' a e = ground arith

  pub >>=-error :
      {A B : Type 0} (m : Session H A) (f : A → Session H B) (s t : Client R × H.World) (x : Text)
      → m s ≡ (error x, t)
      → ◌>>=◌ H m f s ≡ (error x, t)
  unfolding ◌>>=◌
  >>=-error m f s t x e = ground arith

  pub >>-error :
      {A B : Type 0} (m : Session H A) (k : Session H B) (s t : Client R × H.World) (x : Text)
      → m s ≡ (error x, t)
      → ◌>>◌ H m k s ≡ (error x, t)
  unfolding ◌>>◌
  >>-error m k s t x e = >>=-error m (λ _. k) s t x e

  pub ask-error :
      {A : Type 0} (call : H.World → Reply A × H.World) (c : Client R) (w w' : H.World) (x : Text)
      → call w ≡ (error x, w')
      → ask H call (c, w) ≡ (error x, (c, w'))
  unfolding ask
  ask-error call c w w' x e = ground arith

  pub wrapping-reply :
      (x : Text) (m : Session H (Unit {0})) (s t : Client R × H.World)
      → m s ≡ (reply tt, t)
      → wrapping H x m s ≡ (reply tt, t)
  unfolding wrapping
  wrapping-reply x m s t e = ground arith

  pub wrapping-error :
      (x y : Text) (m : Session H (Unit {0})) (s t : Client R × H.World)
      → m s ≡ (error y, t)
      → wrapping H x m s ≡ (error (x ++ y), t)
  unfolding wrapping
  wrapping-error x y m s t e = ground arith
