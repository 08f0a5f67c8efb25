-- ===== src/Args/Reading.antt =====
-- The sources of the credentials: what they read, and in which order they are asked.
use yuv_lightning_ldk_sample.Prelude.{
  List, Option, ◌++◌, ◌≡◌, none, some, All, ◌∷◌, [], map, ◌↔◌, if◌then◌else◌, Bool, ◌∙◌, refl, sym,
  append_assoc, true, ap, false,
}
use yuv_lightning_ldk_sample.Prelude.Text.{Bytes, Lacks, equal, codes, split}
use yuv_lightning_ldk_sample.Args.Credentials.{
  parse_rpc_auth, auth_of_parts, System, put_lines, get_rpc_auth_from_env_file, default_rpc_auth,
  parse_env_file, get_rpc_auth_from_env_vars, both_keys, rpc_user_key, rpc_password_key, Message,
  no_rpc_auth, rpc_auth_help, get_rpc_auth_from_cookie,
}
use yuv_lightning_ldk_sample.Prelude.Assoc.{Assoc, get, insert, get-insert}
use yuv_lightning_ldk_sample.Prelude.Lines.{IsLine, text_of, lines-text_of}
use yuv_lightning_ldk_sample.Prelude.Splitting.{split_once-append, split_pair_sound, split-pair}
use yuv_lightning_ldk_sample.Payments.{Network}

auth_of_parts-eq :
    (parts : List Bytes) (u p : Bytes)
    → auth_of_parts parts ≡ ([], some (u, p))
    → parts ≡ u ∷ p ∷ []
unfolding auth_of_parts
auth_of_parts-eq [] u p e = cc
auth_of_parts-eq (a ∷ []) u p e = cc
auth_of_parts-eq (a ∷ b ∷ []) u p e = cc
auth_of_parts-eq (a ∷ b ∷ c ∷ parts) u p e = cc

-- `parse_rpc_auth` gives a name and a password, and prints nothing, exactly when the text is the two
-- with a colon between them and neither holds a colon.
pub parse_rpc_auth_iff :
    (s u p : Bytes)
    → (parse_rpc_auth s ≡ ([], some (u, p))) ↔ ((s ≡ u ++ b':' ∷ p) × Lacks b':' u × Lacks b':' p)
unfolding parse_rpc_auth auth_of_parts
parse_rpc_auth_iff s u p = (
  λ e. split_pair_sound b':' s u p (auth_of_parts-eq (split b':' s) u p e),
  λ h. rw (h.0, split-pair b':' u p h.1 h.2) refl,
)

-- a line of an env file
abbrev pub entry_line : Bytes × Bytes → Bytes
entry_line entry = entry.0 ++ b'=' ∷ entry.1

-- The key has no equals sign, and the entry is one line.
abbrev pub IsEntry : Bytes × Bytes → Type 0
IsEntry entry = Lacks b'=' entry.0 × IsLine (entry_line entry)

abbrev pub found_or : Option Bytes → Option Bytes → Option Bytes
found_or (some v) d = some v
found_or none d = d

-- the value that the last entry with a key gives it
unfoldable pub last_value : Bytes → List (Bytes × Bytes) → Option Bytes
last_value k [] = none
last_value k (entry ∷ entries) =
    found_or (last_value k entries) (if equal entry.0 k then some entry.1 else none)

abbrev put_all : List (Bytes × Bytes) → Assoc Bytes → Assoc Bytes
put_all [] m = m
put_all (entry ∷ entries) m = put_all entries (insert entry.0 entry.1 m)

found_later :
    (o : Option Bytes) (b : Bool) (v : Bytes) (d : Option Bytes)
    → found_or o (if b then some v else d) ≡ found_or (found_or o (if b then some v else none)) d
found_later (some w) b v d = refl
found_later none true v d = refl
found_later none false v d = refl

get-put_all :
    (k : Bytes) (entries : List (Bytes × Bytes)) (m : Assoc Bytes)
    → get k (put_all entries m) ≡ found_or (last_value k entries) (get k m)
unfolding last_value
get-put_all k [] m = refl
get-put_all k (entry ∷ entries) m =
    get-put_all k entries (insert entry.0 entry.1 m)
    ∙ (rw (get-insert entry.0 k entry.1 m)
        (found_later (last_value k entries) (equal entry.0 k) entry.1 (get k m)))

found_or-none : (o : Option Bytes) → found_or o none ≡ o
found_or-none none = refl
found_or-none (some v) = refl

both_keys-put_all :
    (entries : List (Bytes × Bytes))
    → both_keys (λ k. get k (put_all entries [])) ≡ both_keys (λ k. last_value k entries)
unfolding get
both_keys-put_all entries = ap both_keys (λ i k. value k i)
  where
    value : (k : Bytes) → get k (put_all entries []) ≡ last_value k entries
    value k = get-put_all k entries [] ∙ found_or-none (last_value k entries)

put_lines-entries :
    (entries : List (Bytes × Bytes)) (m : Assoc Bytes)
    → All IsEntry entries
    → put_lines (map entry_line entries) m ≡ ([], some (put_all entries m))
unfolding put_lines
put_lines-entries [] m h = refl
put_lines-entries (entry ∷ entries) m h =
    rw (split_once-append b'=' entry.0 entry.1 h.0.0)
      (put_lines-entries entries (insert entry.0 entry.1 m) h.1)

entries-IsLine :
    (entries : List (Bytes × Bytes)) → All IsEntry entries → All IsLine (map entry_line entries)
entries-IsLine [] h = tt
entries-IsLine (entry ∷ entries) h = (h.0.1, entries-IsLine entries h.1)

module _ {P S : Type 0} (sys : System P S) where
  -- Let the env file hold entries, each with a key without an equals sign, an equals sign, and a
  -- value. The credentials that are read from it are the last values of the two keys, if both have
  -- one; nothing is printed.
  pub get_rpc_auth_from_env_file_reads :
      (entries : List (Bytes × Bytes))
      → All IsEntry entries
      → sys.read_to_string (codes ".env") ≡ some (text_of (map entry_line entries))
      → get_rpc_auth_from_env_file sys none ≡ ([], both_keys (λ k. last_value k entries))
  unfolding get_rpc_auth_from_env_file parse_env_file both_keys
  get_rpc_auth_from_env_file_reads entries h e =
      rw
        (
          e,
          lines-text_of (map entry_line entries) (entries-IsLine entries h),
          put_lines-entries entries [] h,
        )
        (ap (λ auth. ([], auth)) (both_keys-put_all entries))

  -- Even when both environment variables are set, and so are the credentials, the message that there
  -- are none is printed, and the help after it.
  pub default_rpc_auth_complains :
      (network : Network) (u p : Bytes)
      → sys.var rpc_user_key ≡ some u
      → sys.var rpc_password_key ≡ some p
      → ((default_rpc_auth sys network).1 ≡ some (u, p))
        × (told : List Message) × ((default_rpc_auth sys network).0
            ≡ told ++ (no_rpc_auth ∷ rpc_auth_help ∷ []))
  unfolding default_rpc_auth get_rpc_auth_from_env_vars both_keys
  default_rpc_auth_complains network u p hu hp =
      let file = (get_rpc_auth_from_env_file sys none).0 in
      let cookie = (get_rpc_auth_from_cookie sys none (some network) none).0 in
      (
        rw (hu, hp) refl,
        file ++ cookie,
        sym (append_assoc file cookie (no_rpc_auth ∷ rpc_auth_help ∷ [])),
      )
