-- ===== src/Oci/Public.antt =====
-- Where the tools that reach a registry send their requests.
use rebekah.Prelude.{
  refl, ℕ, ◌≡◌, ◌⊎◌, Bool, true, false, ◌&&◌, Option, none, some, List, [], ◌∷◌, ◌++◌, All,
  All-append, length, arith, Bool-cases, inl, inr, if◌then◌else◌,
}
use mathlib.Core.Path.{subst}
use rebekah.Prelude.Text.{Text, codes}
use rebekah.Prelude.Dict.{Dict, insert}
use rebekah.Prelude.Exec.{ok}
use rebekah.Oci.Refusal.{Checked, bind_ok, ensure, ensure_ok, require, require_ok}
use rebekah.Oci.Act.{◌>>=◌, checked, act_ok, bind_keeps}
use rebekah.Oci.Disk.{Bytes, Host, Descriptor, is_digest}
use rebekah.Oci.Registry.{
  Ip, Candidate, Origin, public_ones, only_public, pinned, is_repository, origin_host, is_host,
  registry_host,
}
use rebekah.Oci.Connection.{
  Pin, Net, Reply, getaddrinfo, next_names, next_reply, get_reply, connection,
}
use rebekah.Oci.Probe.{fetch_manifest}
use rebekah.Oci.Fetch.{accept_manifest}
use rebekah.Oci.Plan.{plan, accept_blob}
use rebekah.Oci.Acquire.{
  Site, Tree, File, files_of, write_all, one_less, append_file, check_and_move, online,
  check_destination, put_in_place, fetch_blob, fetch_all, acquire,
}

-- A request that went to a public address, for a host that is a plain name.
abbrev pub IsPublic : Pin × Text → Type 0
IsPublic r = (r.0.address.is_global ≡ true) × (is_host r.0.host ≡ true)

abbrev pub AllPublic : Net → Type 0
AllPublic net = All IsPublic net.sent

abbrev Global : Ip → Type 0
Global ip = ip.is_global ≡ true

public_ones-Global :
    (ks : List Candidate) (ips : List Ip) → public_ones ks ≡ ok ips → All Global ips
unfolding public_ones
public_ones-Global [] ips e = subst (All Global) {x = []} {y = ips} (cc e) tt
public_ones-Global (k ∷ ks) ips e =
    let (ip, _, e1) = bind_ok (require k.ip (codes "not an IP address")) _ e in
    let (rest, others, e2) = bind_ok (public_ones ks) _ e1 in
    let all = public_ones-Global ks rest others in
    subst (All Global) {x = if k.is_inet && ip.is_global then ip ∷ rest else rest} {y = ips} (cc e2)
      (by_test k.is_inet ip rest all (Bool-cases (k.is_inet && ip.is_global)))
  where
    by_test :
        (inet : Bool) (ip : Ip) (rest : List Ip)
        → All Global rest
        → ((inet && ip.is_global) ≡ true) ⊎ ((inet && ip.is_global) ≡ false)
        → All Global (if inet && ip.is_global then ip ∷ rest else rest)
    by_test inet ip rest all (inl t) = rw t (ground arith, all)
    by_test inet ip rest all (inr f) = rw f all

only_public-Global :
    (n : ℕ) (ips : List Ip) (ip : Ip) → All Global ips → only_public n ips ≡ some ip → Global ip
only_public-Global n [] ip all e = ground arith
only_public-Global n (x ∷ xs) ip all e = let same : x ≡ ip = ground arith in subst Global same all.0

pinned-Global : (ks : List Candidate) (ip : Ip) → pinned ks ≡ ok ip → Global ip
unfolding pinned
pinned-Global ks ip e =
    let (ips, found, e1) = bind_ok (public_ones ks) _ e in
    only_public-Global (length ks) ips ip (public_ones-Global ks ips found) (require_ok _ _ e1)

registry_host-is_host :
    (urlsplit : Text → Option Origin) (registry repository digest host : Text)
    → registry_host urlsplit registry repository digest ≡ ok host
    → is_host host ≡ true
unfolding registry_host
registry_host-is_host urlsplit registry repository digest host e =
    let (_, _, e1) = bind_ok (ensure (is_repository repository) (codes "invalid repository")) _ e in
    let (_, _, e2) =
      bind_ok (ensure (is_digest digest) (codes "require immutable sha256 digest")) _ e1 in
    let (parsed, _, e3) = bind_ok (require (urlsplit registry) _) _ e2 in
    let (found, _, e4) = bind_ok (require (origin_host parsed) _) _ e3 in
    let (_, plain, e5) =
      bind_ok (ensure (is_host found) (codes "registry host must be a plain ASCII DNS name")) _
        e4 in
    subst (λ x. is_host x ≡ true) {x = found} {y = host} (cc e5) (ensure_ok _ _ plain)

getaddrinfo-AllPublic : (net : Net) → AllPublic net → AllPublic (getaddrinfo net).1
unfolding getaddrinfo
getaddrinfo-AllPublic net h = by_names net.names
  where
    by_names : (ns : List (Option (List Candidate))) → AllPublic (next_names net ns).1
    by_names [] = h
    by_names (none ∷ rest) = h
    by_names (some ks ∷ rest) = h

get_reply-AllPublic :
    (pin : Pin) (path : Text) (net : Net)
    → IsPublic (pin, path)
    → AllPublic net
    → AllPublic (get_reply pin path net).1
unfolding get_reply
get_reply-AllPublic pin path net p h = by_replies net.replies
  where
    after : All IsPublic (net.sent ++ ((pin, path) ∷ []))
    after = All-append IsPublic net.sent ((pin, path) ∷ []) h (p, tt)

    by_replies :
        (rs : List (Option Reply))
        → AllPublic (next_reply (record net { sent = net.sent ++ ((pin, path) ∷ []) }) rs).1
    by_replies [] = after
    by_replies (none ∷ rest) = after
    by_replies (some r ∷ rest) = after

module _ (h : Host) (urlsplit : Text → Option Origin) (registry repository : Text) where
  connection-IsPublic :
      (digest path : Text) (net m : Net) (pin : Pin)
      → connection urlsplit registry repository digest net ≡ (ok pin, m)
      → IsPublic (pin, path)
  unfolding connection
  connection-IsPublic digest path net m pin e =
      let (host, m1, checks, e1) =
        act_ok (checked (registry_host urlsplit registry repository digest)) _ net m e in
      let (ks, m2, names, e2) = act_ok getaddrinfo _ m1 m e1 in
      let (ip, m3, pins, e3) = act_ok (checked (pinned ks)) _ m2 m e2 in
      subst (λ x. IsPublic (x, path)) {x = record { address = ip; host = host }} {y = pin} (cc e3)
        (
          pinned-Global ks ip (cc pins),
          registry_host-is_host urlsplit registry repository digest host (cc checks),
        )

  connection-AllPublic :
      (digest : Text) (net : Net)
      → AllPublic net
      → AllPublic (connection urlsplit registry repository digest net).1
  unfolding connection
  connection-AllPublic digest net p =
      bind_keeps AllPublic (checked (registry_host urlsplit registry repository digest)) _ net p
        λ host m e q.
          bind_keeps AllPublic getaddrinfo _ m (getaddrinfo-AllPublic m q)
            λ ks m' e' q'. bind_keeps AllPublic (checked (pinned ks)) _ m' q' λ ip m2 e2 q2. q2

  -- A connection, and one request over it.
  asks :
      {A : Type 0} (digest path : Text) (accept : Reply → Checked A) (net : Net)
      → AllPublic net
      → AllPublic
          ((connection urlsplit registry repository digest >>= λ pin.
              get_reply pin path >>= λ r. checked (accept r))
            net).1
  asks digest path accept net p =
      bind_keeps AllPublic (connection urlsplit registry repository digest) _ net
        (connection-AllPublic digest net p)
        λ pin m e q.
          bind_keeps AllPublic (get_reply pin path) _ m
            (get_reply-AllPublic pin path m (connection-IsPublic digest path net m pin e) q)
            λ r m' e' q'. q'

  fetch_manifest-AllPublic :
      (digest : Text) (net : Net)
      → AllPublic net
      → AllPublic (fetch_manifest h urlsplit registry repository digest net).1
  unfolding fetch_manifest
  fetch_manifest-AllPublic digest net p = asks digest _ (accept_manifest h digest) net p

  fetch_all-AllPublic :
      (ds : List Descriptor) (blobs : Dict Bytes) (net : Net)
      → AllPublic net
      → AllPublic (fetch_all h urlsplit registry repository ds blobs net).1
  unfolding fetch_all fetch_blob
  fetch_all-AllPublic [] blobs net p = p
  fetch_all-AllPublic (d ∷ ds) blobs net p =
      bind_keeps AllPublic (fetch_blob h urlsplit registry repository d) _ net
        (asks d.digest _ (accept_blob h d) net p)
        λ payload m e q. fetch_all-AllPublic ds (insert d.digest payload blobs) m q

  write_all-net : (fs : List File) (s : Site) → (write_all fs s).1.net ≡ s.net
  unfolding write_all
  write_all-net [] s = refl
  write_all-net (f ∷ fs) s = ground (
    arith,
    write_all-net fs
        (record s { fails_after = one_less s.fails_after; stage = append_file f s.stage }),
  )

  check_and_move-net : (s : Site) → (check_and_move s).1.net ≡ s.net
  check_and_move-net s = ground arith

  put_in_place-net : (tree : Tree) (s : Site) → (put_in_place tree s).1.net ≡ s.net
  unfolding put_in_place
  put_in_place-net tree s = ground (
    arith,
    write_all-net (files_of tree) (record s { stage = some [] }),
    check_and_move-net (write_all (files_of tree) (record s { stage = some [] })).1,
  )

  -- Whatever the names resolve to and the servers answer, an acquisition sends its requests to
  -- public addresses alone, for hosts that are plain names.
  pub acquire-AllPublic :
      (digest : Text) (s : Site)
      → AllPublic s.net
      → AllPublic (acquire h urlsplit registry repository digest s).1.net
  unfolding acquire check_destination
  acquire-AllPublic digest s p = bind_keeps Sound check_destination _ s p λ u m e q.
      bind_keeps Sound (online (fetch_manifest h urlsplit registry repository digest)) _ m
        (fetch_manifest-AllPublic digest m.net q)
        λ found m1 e1 q1.
          bind_keeps Sound (checked (plan h digest found)) _ m1 q1 λ wanted m2 e2 q2.
            bind_keeps Sound
              (online (fetch_all h urlsplit registry repository wanted.0 ((digest, found.0) ∷ [])))
              _ m2 (fetch_all-AllPublic wanted.0 _ m2.net q2)
              λ blobs m3 e3 q3.
                bind_keeps Sound (put_in_place _) _ m3 (rw (put_in_place-net _ m3) q3)
                  λ u4 m4 e4 q4. q4
    where
      Sound : Site → Type 0
      Sound x = AllPublic x.net
