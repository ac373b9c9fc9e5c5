-- ===== src/Tls/Load.antt =====
-- internal/tlscert/load.go: finding and loading the certificate. The file system, crypto/tls and
-- SHA-256 are parameters; the directory is a clean path, so that filepath.Join only adds a slash.
use picomx.Prelude.{
  ℕ, ◌≡◌, refl, subst, ◌⊎◌, inl, inr, Bool, true, false, Option, none, some, List, [], ◌∷◌, ◌++◌,
  if◌then◌else◌, Bool-cases, Option-cases, all,
}
use picomx.Text.Bytes.{Bytes, codes}
use picomx.Text.Unicode.{Unicode}
use picomx.Tls.Hostnames.{domain_candidates, normalize_hostnames}

-- What the code asks of an x509.Certificate; times are nanoseconds.
pub record Leaf : Type 0 where
  pub not_before : ℕ
  pub not_after : ℕ
  pub covers : Bytes → Bool

pub record LoadedCertificate : Type 0 where
  pub cert_pem : Bytes
  pub key_pem : Bytes
  pub leaf : Leaf
  pub hash : Bytes
  pub directory : Bytes

pub data LoadError : Type 0 where
  not_exist unreadable bad_pair not_covered bad_hostname no_certificate not_valid_now : LoadError

pub data Load (A : Type 0) : Type 0 where
  failed : LoadError → Load A
  loaded : A → Load A

-- The files, the parser of a pair of PEM texts, and the digest.
pub record Machine : Type 0 where
  pub read_file : Bytes → Load Bytes
  pub parse_pair : Bytes → Bytes → Option Leaf
  pub sha256 : Bytes → Bytes

unfoldable pub join_path : Bytes → Bytes → Bytes
join_path directory name = directory ++ b'/' ∷ name

unfoldable pub check_leaf :
    Machine → Bytes → List Bytes → Bytes → Bytes → Leaf → Load LoadedCertificate
check_leaf m directory names cert_pem key_pem leaf =
    if all leaf.covers names
    then loaded (record {
      cert_pem = cert_pem;
      key_pem = key_pem;
      leaf = leaf;
      hash = m.sha256 (cert_pem ++ key_pem);
      directory = directory;
    })
    else failed not_covered

unfoldable pub parse_files : Machine → Bytes → List Bytes → Bytes → Bytes → Load LoadedCertificate
unfolding check_leaf
parse_files m directory names cert_pem key_pem = elim (m.parse_pair cert_pem key_pem) [
  | none ↦ failed bad_pair
  | some leaf ↦ check_leaf m directory names cert_pem key_pem leaf
]

unfoldable pub load_directory : Machine → Bytes → List Bytes → Load LoadedCertificate
unfolding join_path parse_files
load_directory m directory names =
    elim (m.read_file (join_path directory (codes "fullchain.pem"))) [
      | failed e ↦ failed e
      | loaded cert_pem ↦ elim (m.read_file (join_path directory (codes "privkey.pem"))) [
        | failed e ↦ failed e
        | loaded key_pem ↦ parse_files m directory names cert_pem key_pem
      ]
    ]

-- errors.Is(err, os.ErrNotExist).
unfoldable pub is_not_exist : LoadError → Bool
is_not_exist e = elim e [ not_exist ↦ true | _ ↦ false ]

-- The loop over the directories of the host name and the domains above it.
unfoldable pub try_directories : Machine → Bytes → List Bytes → List Bytes → Load LoadedCertificate
unfolding load_directory is_not_exist join_path
try_directories m cert_dir names [] = failed no_certificate
try_directories m cert_dir names (candidate ∷ candidates) =
    let rest = try_directories m cert_dir names candidates in
    elim (load_directory m (join_path cert_dir candidate) names) [
      | loaded c ↦ loaded c
      | failed e ↦ if is_not_exist e then rest else failed e
    ]

unfoldable pub load_names : Machine → Bytes → List Bytes → Load LoadedCertificate
unfolding try_directories domain_candidates
load_names m cert_dir [] = failed bad_hostname
load_names m cert_dir (name ∷ names) =
    try_directories m cert_dir (name ∷ names) (domain_candidates name)

unfoldable pub load_certificate : Unicode → Machine → Bytes → List Bytes → Load LoadedCertificate
unfolding load_names normalize_hostnames
load_certificate u m cert_dir hostnames = elim (normalize_hostnames u hostnames) [
  | none ↦ failed bad_hostname
  | some names ↦ load_names m cert_dir names
]

-- The certificate covers these names.
abbrev pub Covers : List Bytes → LoadedCertificate → Type 0
Covers names c = all c.leaf.covers names ≡ true

-- A certificate that was loaded covers the names, whatever was on disk.
abbrev Loads : List Bytes → Load LoadedCertificate → Type 0
Loads names (failed e) = Unit
Loads names (loaded c) = Covers names c

check_leaf-Loads :
    (m : Machine) (directory : Bytes) (names : List Bytes) (cert_pem key_pem : Bytes) (leaf : Leaf)
    → Loads names (check_leaf m directory names cert_pem key_pem leaf)
unfolding check_leaf
check_leaf-Loads m directory names cert_pem key_pem leaf =
    elim (Bool-cases (all leaf.covers names)) [
      | inl e ↦ rw (check_leaf, e) e
      | inr e ↦ rw (check_leaf, e) tt
    ]

parse_files-Loads :
    (m : Machine) (directory : Bytes) (names : List Bytes) (cert_pem key_pem : Bytes)
    → Loads names (parse_files m directory names cert_pem key_pem)
unfolding parse_files
parse_files-Loads m directory names cert_pem key_pem =
    elim (Option-cases (m.parse_pair cert_pem key_pem)) [
      | inl e ↦ rw (parse_files, e) tt
      | inr (leaf, e) ↦
          rw (parse_files, e) (check_leaf-Loads m directory names cert_pem key_pem leaf)
    ]

pub Load-cases :
    {A : Type 0} (l : Load A) → ((a : A) × (l ≡ loaded a)) ⊎ ((e : LoadError) × (l ≡ failed e))
Load-cases (loaded a) = inl (a, refl)
Load-cases (failed e) = inr (e, refl)

load_directory-Loads :
    (m : Machine) (directory : Bytes) (names : List Bytes)
    → Loads names (load_directory m directory names)
unfolding load_directory
load_directory-Loads m directory names =
    elim (Load-cases (m.read_file (join_path directory (codes "fullchain.pem")))) [
      | inr (e, h) ↦ rw (load_directory, h) tt
      | inl (cert_pem, h) ↦
          elim (Load-cases (m.read_file (join_path directory (codes "privkey.pem")))) [
            | inr (e, k) ↦ rw (load_directory, h, k) tt
            | inl (key_pem, k) ↦
                rw (load_directory, h, k) (parse_files-Loads m directory names cert_pem key_pem)
          ]
    ]

try_directories-Loads :
    (m : Machine) (cert_dir : Bytes) (names candidates : List Bytes)
    → Loads names (try_directories m cert_dir names candidates)
unfolding try_directories
try_directories-Loads m cert_dir names [] = tt
try_directories-Loads m cert_dir names (candidate ∷ candidates) =
    elim (Load-cases (load_directory m (join_path cert_dir candidate) names)) [
      | inl (c, h) ↦
          rw (try_directories, h)
            (subst (Loads names) h (load_directory-Loads m (join_path cert_dir candidate) names))
      | inr (e, h) ↦ elim (Bool-cases (is_not_exist e)) [
        | inl k ↦ rw (try_directories, h, k) (try_directories-Loads m cert_dir names candidates)
        | inr k ↦ rw (try_directories, h, k) tt
      ]
    ]

load_names-Loads :
    (m : Machine) (cert_dir : Bytes) (names : List Bytes)
    → Loads names (load_names m cert_dir names)
unfolding load_names
load_names-Loads m cert_dir [] = tt
load_names-Loads m cert_dir (name ∷ names) =
    try_directories-Loads m cert_dir (name ∷ names) (domain_candidates name)

-- A certificate that is loaded covers every host name of the configuration.
pub load_certificate-Covers :
    (u : Unicode) (m : Machine) (cert_dir : Bytes) (hostnames names : List Bytes)
    (c : LoadedCertificate)
    → normalize_hostnames u hostnames ≡ some names
    → load_certificate u m cert_dir hostnames ≡ loaded c
    → Covers names c
unfolding load_certificate
load_certificate-Covers u m cert_dir hostnames names c h run =
    subst (Loads names) (rw (load_certificate, h) at run) (load_names-Loads m cert_dir names)
