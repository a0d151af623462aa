-- ===== src/Client/Session/Upload.antt =====
-- uploadSatellite: the copy of the satellite of an architecture.
use dockerfuse.Base.{ℕ, ◌≡◌, refl, ◌∙◌, ap, false, ◌||◌, List, ◌++◌, length, arith}
use dockerfuse.Base.Text.{Text, str, text_eq, has_prefix}
use dockerfuse.Client.Rpc.{Rpc, reply, error, Client}
use dockerfuse.Node.Paths.{child_path, join, clean, components, resolve, enter, slashed}
use dockerfuse.Client.Session.{
  Host, ask, with_client, check_architecture, set_remote_path, satellite_exec_path,
  satellite_bin_name, satellite_archive, returning, dir, upload_satellite,
}
use dockerfuse.Node.Paths.Children.{IsName, no_slash}
use dockerfuse.Client.Session.Laws.{>>=-reply, >>-reply, ask-reply, >>-error}

-- The architectures that a satellite is built for.
pub data Architecture : Type 0 where
  arm64 amd64 : Architecture

abbrev pub architecture_name : Architecture → Text
architecture_name arm64 = str "arm64"
architecture_name amd64 = str "amd64"

-- The name of the satellite's executable.
abbrev pub file_name : Architecture → Text
file_name arm64 = str "dockerfuse_satellite_arm64"
file_name amd64 = str "dockerfuse_satellite_amd64"

abbrev pub remote_path : Architecture → Text
remote_path arm64 = str "/tmp/dockerfuse_satellite_arm64"
remote_path amd64 = str "/tmp/dockerfuse_satellite_amd64"

pub file_name-IsName : (a : Architecture) → IsName (file_name a)
unfolding text_eq no_slash
file_name-IsName arm64 = record {
  not_empty = refl;
  not_here = refl;
  not_up = refl;
  one_part = refl;
}
file_name-IsName amd64 = record {
  not_empty = refl;
  not_here = refl;
  not_up = refl;
  one_part = refl;
}

remote_path_joined :
    (a : Architecture)
    → child_path satellite_exec_path (satellite_bin_name (architecture_name a)) ≡ remote_path a
unfolding child_path join clean components resolve enter slashed has_prefix text_eq
remote_path_joined arm64 = refl
remote_path_joined amd64 = refl

file_name-satellite_bin_name :
    (a : Architecture) → satellite_bin_name (architecture_name a) ≡ file_name a
file_name-satellite_bin_name arm64 = refl
file_name-satellite_bin_name amd64 = refl

module _ {R : Rpc} (H : Host R) where
  checked :
      (a : Architecture) (s : Client R × H.World)
      → check_architecture H (architecture_name a) s ≡ (reply tt, s)
  unfolding check_architecture text_eq
  checked arm64 s = refl
  checked amd64 s = refl

  satellite_archive-done :
      (name : Text) (bin : List ℕ) (tw1 tw2 : H.TarWriter)
      → H.write_header (record { name = name; mode = 448; size = length bin }) H.new_writer
        ≡ (reply tt, tw1)
      → H.write bin tw1 ≡ (reply tt, tw2)
      → satellite_archive H name bin ≡ reply (H.close_writer tw2)
  unfolding satellite_archive
  satellite_archive-done name bin tw1 tw2 headed written = ground arith

  module _ (a : Architecture) (c : Client R) (image ex : Text) (bin : List ℕ)
      (tw1 tw2 : H.TarWriter) (w0 w1 w2 w3 w4 w5 : H.World) where
    abbrev uploaded : Client R
    uploaded = record c { satellite_full_remote_path = remote_path a }

    path_set :
        (w : H.World)
        → set_remote_path H
            (child_path satellite_exec_path (satellite_bin_name (architecture_name a)))
            (c, w)
          ≡ (reply tt, (uploaded, w))
    unfolding set_remote_path
    path_set w =
        ap (λ p. (reply tt, (record c { satellite_full_remote_path = p }, w)))
          (remote_path_joined a)

    archived :
        H.write_header (record { name = file_name a; mode = 448; size = length bin }) H.new_writer
          ≡ (reply tt, tw1)
        → H.write bin tw1 ≡ (reply tt, tw2)
        → satellite_archive H (satellite_bin_name (architecture_name a)) bin
          ≡ reply (H.close_writer tw2)
    archived headed written =
        rw (file_name-satellite_bin_name a)
          (satellite_archive-done (file_name a) bin tw1 tw2 headed written)

    pub upload_satellite-done :
        H.container_inspect c.container_id w0 ≡ (reply image, w1)
        → H.image_inspect image w1 ≡ (reply (architecture_name a), w2)
        → H.executable w2 ≡ (reply ex, w3)
        → H.read_file (child_path (dir ex) (file_name a)) w3 ≡ (reply bin, w4)
        → H.write_header (record { name = file_name a; mode = 448; size = length bin }) H.new_writer
          ≡ (reply tt, tw1)
        → H.write bin tw1 ≡ (reply tt, tw2)
        → H.copy_to_container c.container_id (str "/tmp") (H.close_writer tw2) w4 ≡ (reply tt, w5)
        → upload_satellite H (c, w0) ≡ (reply tt, (uploaded, w5))
    unfolding upload_satellite with_client returning
    upload_satellite-done e1 e2 e3 e4 headed written e5 =
        >>=-reply H (ask H (H.container_inspect c.container_id)) _ (c, w0) (c, w1) image
          (ask-reply H _ c w0 w1 image e1)
        ∙ >>=-reply H (ask H (H.image_inspect image)) _ (c, w1) (c, w2) _
            (ask-reply H _ c w1 w2 _ e2)
        ∙ >>-reply H (check_architecture H (architecture_name a)) _ (c, w2) (c, w2) tt
            (checked a (c, w2))
        ∙ >>-reply H (set_remote_path H _) _ (c, w2) (uploaded, w2) tt (path_set w2)
        ∙ >>=-reply H (ask H H.executable) _ (uploaded, w2) (uploaded, w3) ex
            (ask-reply H _ uploaded w2 w3 ex e3)
        ∙ >>=-reply H (ask H (H.read_file _)) _ (uploaded, w3) (uploaded, w4) bin
            (ask-reply H _ uploaded w3 w4 bin (rw (file_name-satellite_bin_name a) e4))
        ∙ >>=-reply H (returning H _) _ (uploaded, w4) (uploaded, w4) (H.close_writer tw2)
            (ap (λ r. (r, (uploaded, w4))) (archived headed written))
        ∙ ask-reply H _ uploaded w4 w5 tt e5

  pub upload_satellite-unsupported :
      (architecture : Text) (c : Client R) (image : Text) (w0 w1 w2 : H.World)
      → H.container_inspect c.container_id w0 ≡ (reply image, w1)
      → H.image_inspect image w1 ≡ (reply architecture, w2)
      → (text_eq architecture (str "arm64") || text_eq architecture (str "amd64")) ≡ false
      → upload_satellite H (c, w0) ≡ (
        error (str "unsupported architecture: " ++ (architecture ++ str " (use arm64 or amd64)")),
        (c, w2),
      )
  unfolding upload_satellite with_client check_architecture
  upload_satellite-unsupported architecture c image w0 w1 w2 e1 e2 neither =
      >>=-reply H (ask H (H.container_inspect c.container_id)) _ (c, w0) (c, w1) image
        (ask-reply H _ c w0 w1 image e1)
      ∙ >>=-reply H (ask H (H.image_inspect image)) _ (c, w1) (c, w2) _ (ask-reply H _ c w1 w2 _ e2)
      ∙ >>-error H (check_architecture H architecture) _ (c, w2) (c, w2) _ (rw neither)
