-- ===== src/Ui/ProcessDetails/Counting.antt =====
-- ptraf/src/ui/process_details.rs: the numbers of established connections.
use ptraf.Shared.{
  ℕ, suc, ◌+◌, ◌≡◌, refl, ap, ◌∙◌, inl, inr, Bool, true, false, ◌&&◌, ◌||◌, Option, some, none,
  List, [], ◌∷◌, ◌++◌, keep, any, length, ◌==◌, Bool-cases, Option-cases, arith,
}
use ptraf.Ui.ProcessDetails.{
  FdTarget, socket, other, NetEntry, Procfs, ProcessDetails, entries, flatten, inodes_of, is_socket,
  fd_sockets, socket_inodes, tcp_conns, udp_conns, established_of, established_tcp, established_udp,
}

-- Whether an open file is the socket with an inode; files that cannot be read are none.
abbrev pub holds_inode : ℕ → Option FdTarget → Bool
holds_inode i (some (socket j)) = j == i
holds_inode i _ = false

-- The connections that are established and whose socket is among the open files, counted.
abbrev pub count_from : List (Option FdTarget) → List NetEntry → ℕ
count_from files [] = 0
count_from files (c ∷ cs) =
    let rest = count_from files cs in
    elim (c.established && any (holds_inode c.inode) files) [ true ↦ suc rest | false ↦ rest ]

-- The same for two tables of a process, where what cannot be read counts as empty, and a process
-- that is gone has none.
abbrev pub counted :
    (os : Procfs)
    → (os.Process → Option (List NetEntry))
    → (os.Process → Option (List NetEntry))
    → Option os.Process
    → ℕ
counted os v4 v6 none = 0
counted os v4 v6 (some p) =
    count_from (entries (os.fd p)) (entries (v4 p))
    + count_from (entries (os.fd p)) (entries (v6 p))

any-inodes_of :
    (i : ℕ) (files : List (Option FdTarget))
    → any (λ j. j == i) (inodes_of (keep is_socket (flatten files))) ≡ any (holds_inode i) files
any-inodes_of i [] = refl
any-inodes_of i (none ∷ files) = any-inodes_of i files
any-inodes_of i (some (socket j) ∷ files) = ap (λ b. (j == i) || b) (any-inodes_of i files)
any-inodes_of i (some other ∷ files) = any-inodes_of i files

length-established_of :
    (inodes : List ℕ) (files : List (Option FdTarget))
    → ((i : ℕ) → any (λ j. j == i) inodes ≡ any (holds_inode i) files)
    → (cs : List NetEntry) → length (established_of inodes cs) ≡ count_from files cs
length-established_of inodes files h [] = refl
length-established_of inodes files h (c ∷ cs) =
    length_step (c.established && any (λ j. j == c.inode) inodes)
      (length-established_of inodes files h cs)
    ∙ ap
        (λ b. elim (c.established && b) as (λ _. ℕ) [
          | true ↦ suc (count_from files cs)
          | false ↦ count_from files cs
        ])
        (h c.inode)
  where
    length_step :
        {n : ℕ} (b : Bool)
        → length (established_of inodes cs) ≡ n
        → length (elim b as (λ _. List NetEntry) [
          | true ↦ c ∷ established_of inodes cs
          | false ↦ established_of inodes cs
        ])
          ≡ elim b as (λ _. ℕ) [ true ↦ suc n | false ↦ n ]
    length_step true e = ap suc e
    length_step false e = e

established_of-append :
    (inodes : List ℕ) (xs ys : List NetEntry)
    → length (established_of inodes (xs ++ ys))
      ≡ length (established_of inodes xs) + length (established_of inodes ys)
established_of-append inodes [] ys = omega arith
established_of-append inodes (c ∷ xs) ys =
    let ih = established_of-append inodes xs ys in
    elim (Bool-cases (c.established && any (λ j. j == c.inode) inodes)) [
      | inl yes' ↦ rw (yes', length) (omega (arith, ih))
      | inr no' ↦ rw (no', length) ih
    ]

both :
    (os : Procfs) (p : os.Process) (xs ys : List NetEntry)
    → length (established_of (inodes_of (keep is_socket (flatten (entries (os.fd p))))) (xs ++ ys))
      ≡ count_from (entries (os.fd p)) xs + count_from (entries (os.fd p)) ys
both os p xs ys =
    let files = entries (os.fd p) in
    let inodes = inodes_of (keep is_socket (flatten files)) in
    let a = length-established_of inodes files (λ i. any-inodes_of i files) xs in
    let b = length-established_of inodes files (λ i. any-inodes_of i files) ys in
    let c = established_of-append inodes xs ys in omega (arith, a, b, c)

-- The numbers that the view of a process shows are those of the established connections, in both
-- tables of the protocol, whose socket the process has open. A table, a file or a list of files that
-- cannot be read counts as empty and keeps nothing else from being counted, and a process that is
-- gone has no connections.
pub established_lem :
    (os : Procfs) (self : ProcessDetails)
    → (established_tcp os self ≡ counted os os.tcp os.tcp6 (os.new self.pid))
      × (established_udp os self ≡ counted os os.udp os.udp6 (os.new self.pid))
unfolding established_tcp established_udp socket_inodes fd_sockets tcp_conns udp_conns
established_lem os self = elim (Option-cases (os.new self.pid)) [
  | inl gone ↦ rw gone (refl, refl)
  | inr (p, there) ↦ rw there (
    both os p (entries (os.tcp p)) (entries (os.tcp6 p)),
    both os p (entries (os.udp p)) (entries (os.udp6 p)),
  )
]
