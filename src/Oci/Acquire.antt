-- ===== src/Oci/Acquire.antt =====
-- `acquire` of tools/oci_registry_acquire.py: the blobs of one manifest are fetched, verified and
-- written to a stage, which then becomes the destination.
use rebekah.Prelude.{
  ℕ, ◌++◌, ◌-◌, ◌==◌, Bool, true, false, not, Option, none, some, List, [], ◌∷◌, if◌then◌else◌,
  length,
}
use rebekah.Prelude.Text.{Text, codes}
use rebekah.Prelude.Dict.{Dict, insert}
use rebekah.Prelude.Exec.{ok, err}
use rebekah.Oci.Refusal.{refused, io_error, Checked}
use rebekah.Oci.Act.{Act, ◌>>=◌, checked}
use rebekah.Oci.Disk.{Bytes, Host, Descriptor}
use rebekah.Oci.Registry.{Origin}
use rebekah.Oci.Connection.{Net, connection, get_reply}
use rebekah.Oci.Probe.{fetch_manifest, path_of}
use rebekah.Oci.Plan.{plan, accept_blob}

-- The files of a layout: the blobs by their digests, and what its index lists.
pub record Tree : Type 0 where
  pub blobs : Dict Bytes
  pub listed : Text
  pub listed_size : ℕ

-- A file of a layout, as it is written.
pub data File : Type 0 where
  blob_file : Text → Bytes → File
  layout_file : File
  index_file : Text → ℕ → File

abbrev pub blob_files : Dict Bytes → List File
blob_files [] = []
blob_files ((key, payload) ∷ blobs) = blob_file key payload ∷ blob_files blobs

-- All files, in the order in which they are written.
abbrev pub files_of : Tree → List File
files_of tree = blob_files tree.blobs ++ layout_file ∷ index_file tree.listed tree.listed_size ∷ []

-- What is at the destination: nothing, something of somebody else, or what `acquire` put there.
pub data Place : Type 0 where
  absent : Place
  foreign : Place
  acquired : List File → Place

-- What another program creates between the last check of the destination and the rename: a rename
-- replaces an empty directory, and fails for anything else.
pub data Late : Type 0 where
  nothing empty_directory something : Late

-- The network and the disk. `appears` says that another program creates the destination before the
-- last check; `fails_after` is the number of files after which making a directory or writing a file
-- raises an OSError; the stage holds the files that are written so far.
pub record Site : Type 0 where
  pub net : Net
  pub parent_is_dir : Bool
  pub destination : Place
  pub appears : Bool
  pub late : Late
  pub mkdtemp_fails : Bool
  pub fails_after : Option ℕ
  pub rmtree_fails : Bool
  pub stage : Option (List File)

abbrev pub with_net : {A : Type 0} → Site → Checked A × Net → Checked A × Site
with_net s (r, net) = (r, record s { net = net })

-- A step that uses the network alone.
abbrev pub online : {A : Type 0} → Act Net A → Act Site A
online run s = with_net s (run s.net)

abbrev pub is_absent : Place → Bool
is_absent absent = true
is_absent _ = false

-- The checks before anything is fetched.
unfoldable pub check_destination : Act Site (Unit {0})
check_destination s = (
  (if not s.parent_is_dir
      then err (refused (codes "destination parent directory must exist"))
      else if is_absent s.destination
      then ok tt
      else err (refused (codes "destination must not already exist"))),
  s,
)

abbrev pub intrude : Bool → Place → Place
intrude true absent = foreign
intrude _ p = p

abbrev pub append_file : File → Option (List File) → Option (List File)
append_file f none = none
append_file f (some fs) = some (fs ++ f ∷ [])

abbrev pub one_less : Option ℕ → Option ℕ
one_less none = none
one_less (some n) = some (n - 1)

abbrev pub is_used_up : Option ℕ → Bool
is_used_up none = false
is_used_up (some n) = n == 0

-- The files are written one by one, until a write fails.
unfoldable pub write_all : List File → Act Site (Unit {0})
write_all [] s = (ok tt, s)
write_all (f ∷ fs) s =
    let rest =
      write_all fs
        (record s { fails_after = one_less s.fails_after; stage = append_file f s.stage }) in
    if is_used_up s.fails_after then (err io_error, s) else rest

-- The rename of the stage, where the last check found nothing at the destination.
abbrev pub move_stage : Late → Option (List File) → Act Site (Unit {0})
move_stage something files s = (err io_error, record s { destination = foreign })
move_stage nothing (some files) s = (ok tt, record s { destination = acquired files; stage = none })
move_stage empty_directory (some files) s =
    (ok tt, record s { destination = acquired files; stage = none })
move_stage _ none s = (err io_error, s)

abbrev pub move_to : Place → Act Site (Unit {0})
move_to absent s = move_stage s.late s.stage s
move_to _ s = (err (refused (codes "destination appeared during acquisition")), s)

abbrev pub check_and_move : Act Site (Unit {0})
check_and_move s =
    let place = intrude s.appears s.destination in move_to place (record s { destination = place })

abbrev pub fill_and_move : Tree → Act Site (Unit {0})
fill_and_move tree = write_all (files_of tree) >>= λ u. check_and_move

-- `except BaseException: shutil.rmtree(stage); raise`
abbrev pub or_discard : Checked (Unit {0}) × Site → Checked (Unit {0}) × Site
or_discard (ok u, s) = (ok u, s)
or_discard (err e, s) =
    if s.rmtree_fails then (err io_error, s) else (err e, record s { stage = none })

-- The stage is made and filled, and becomes the destination; where any of this fails, it is removed.
unfoldable pub put_in_place : Tree → Act Site (Unit {0})
unfolding write_all
put_in_place tree s =
    if s.mkdtemp_fails
    then (err io_error, s)
    else or_discard (fill_and_move tree (record s { stage = some [] }))

module _ (h : Host) (urlsplit : Text → Option Origin) where
  module _ (registry repository : Text) where
    unfoldable pub fetch_blob : Descriptor → Act Net Bytes
    unfolding connection get_reply accept_blob
    fetch_blob d = do
      pin ← connection urlsplit registry repository d.digest
      reply ← get_reply pin (path_of repository (codes "blobs") d.digest)
      checked (accept_blob h d reply)

    -- The loop over the blobs.
    unfoldable pub fetch_all : List Descriptor → Dict Bytes → Act Net (Dict Bytes)
    unfolding fetch_blob insert
    fetch_all [] blobs = checked (ok blobs)
    fetch_all (d ∷ ds) blobs = do
      payload ← fetch_blob d
      fetch_all ds (insert d.digest payload blobs)

  -- The report of a success: the digest, the number of blobs and the bytes.
  unfoldable pub acquire : Text → Text → Text → Act Site (Text × ℕ × ℕ)
  unfolding check_destination fetch_manifest plan fetch_all put_in_place
  acquire registry repository digest = do
    _ ← check_destination
    found ← online (fetch_manifest h urlsplit registry repository digest)
    wanted ← checked (plan h digest found)
    blobs ← online (fetch_all registry repository wanted.0 ((digest, found.0) ∷ []))
    _ ← put_in_place (record { blobs = blobs; listed = digest; listed_size = length found.0 })
    checked (ok (digest, length blobs, wanted.1))
