-- ===== src/Runtime/Config/Paths.antt =====
-- The endpoints lie in the data directory.
use citadel_runtime.Common.{
  ℕ, ◌≡◌, refl, ap, ◌∙◌, false, Option, some, List, [], ◌∷◌, ◌++◌, All, ◌==◌,
}
use citadel_runtime.Common.Result.{ok}
use citadel_runtime.Common.Replace.{
  starts_with, replace, contains_text, replace-absent, replace-first, replace-append, replace-plain,
  replace-next, EndsWith,
}
use citadel_runtime.Runtime.Config.{
  Config, ipc, data_dir_mark, network_mark, id_mark, default_id, open_brace, process_dir,
  process_endpoint, process,
}

-- a text without braces
abbrev pub IsBraceless : List ℕ → Type 0
IsBraceless s = All (λ c. (123 == c) ≡ false) s × All (λ c. (125 == c) ≡ false) s

abbrev mark : List ℕ → List ℕ
mark name = open_brace ∷ name

-- a text without braces after a path stays as it is
replace-suffix :
    (name by x s : List ℕ)
    → EndsWith 125 (mark name)
    → IsBraceless s
    → replace (mark name) by (x ++ s) ≡ replace (mark name) by x ++ s
replace-suffix name by x s e h =
    replace-append 125 open_brace name by x s e h.1
    ∙ ap (λ r. replace (mark name) by x ++ r) (replace-plain open_brace name by s h.0)

module _ (tilde : List ℕ → List ℕ) (chain_name : ℕ → List ℕ)
    (tilde_plain : (s : List ℕ) → starts_with (126 ∷ []) s ≡ false → tilde s ≡ s) where
  -- the last steps of `process_dir`
  abbrev finished : Config → List ℕ → List ℕ
  finished c x =
      replace (mark id_mark) default_id (replace (mark network_mark) (chain_name c.chain) x)

  finished-suffix :
      (c : Config) (x s : List ℕ) → IsBraceless s → finished c (x ++ s) ≡ finished c x ++ s
  finished-suffix c x s h = rw (replace-suffix network_mark (chain_name c.chain) x s refl h) (
      replace-suffix id_mark default_id (replace (mark network_mark) (chain_name c.chain) x) s refl
        h)

  -- a path that begins with a slash still does so
  finished-slash : (c : Config) (d : List ℕ) → (t : List ℕ) × (finished c (47 ∷ d) ≡ 47 ∷ t)
  finished-slash c d =
      let inner = replace (mark network_mark) (chain_name c.chain) d in
      (
        replace (mark id_mark) default_id inner,
        rw (replace-next open_brace 47 network_mark (chain_name c.chain) d refl)
            (replace-next open_brace 47 id_mark default_id inner refl),
      )

  process_dir-suffix :
      (c : Config) (d s : List ℕ)
      → c.data_dir ≡ 47 ∷ d
      → contains_text (mark data_dir_mark) c.data_dir ≡ false
      → IsBraceless s
      → process_dir tilde chain_name c (mark data_dir_mark ++ s)
        ≡ process_dir tilde chain_name c c.data_dir ++ s
  unfolding process_dir starts_with
  process_dir-suffix c d s slash once h =
      let (t, begins) = finished-slash c d in
      let found : finished c c.data_dir ≡ 47 ∷ t = ap (finished c) slash ∙ begins in
      rw (replace-first open_brace data_dir_mark c.data_dir s) rw
        (replace-plain open_brace data_dir_mark c.data_dir s h.0) rw
        (replace-absent (mark data_dir_mark) c.data_dir c.data_dir once) rw
        (finished-suffix c c.data_dir s h) rw found rw (tilde_plain (47 ∷ (t ++ s)) refl) rw
        (tilde_plain (47 ∷ t) refl)

  -- Endpoints that are given as files in `{data_dir}` are those files in the data directory that
  -- `process` makes and keeps: if the directory, with `~` expanded, begins with a slash and does not
  -- hold `{data_dir}` itself, the names of the files have no braces, and the directory can be made.
  pub process-endpoints :
      {E : Type 0} (create_dir_all : List ℕ → Option (Unit {0})) (c : Config) (d s t : List ℕ)
      → tilde c.data_dir ≡ 47 ∷ d
      → contains_text (mark data_dir_mark) (tilde c.data_dir) ≡ false
      → IsBraceless s
      → IsBraceless t
      → c.rpc_endpoint ≡ ipc (mark data_dir_mark ++ s)
      → c.rgb20_endpoint ≡ ipc (mark data_dir_mark ++ t)
      → create_dir_all (
          process_dir tilde chain_name
            (record c { data_dir = tilde c.data_dir })
            (tilde c.data_dir))
        ≡ some tt
      → (c' : Config) × (process tilde chain_name {E = E} create_dir_all c ≡ ok c')
        × (c'.rpc_endpoint ≡ ipc (c'.data_dir ++ s))
        × (c'.rgb20_endpoint ≡ ipc (c'.data_dir ++ t))
  unfolding process process_endpoint
  process-endpoints create_dir_all c d s t slash once h k asked asked20 made =
      let me : Config = record c { data_dir = tilde c.data_dir } in
      let dir = process_dir tilde chain_name me me.data_dir in
      (
        record c {
          data_dir = dir;
          rpc_endpoint = process_endpoint tilde chain_name me c.rpc_endpoint;
          rgb20_endpoint = process_endpoint tilde chain_name me c.rgb20_endpoint;
        },
        rw (made, process),
        ap (process_endpoint tilde chain_name me) asked
            ∙ ap ipc (process_dir-suffix me d s slash once h),
        ap (process_endpoint tilde chain_name me) asked20
            ∙ ap ipc (process_dir-suffix me d t slash once k),
      )
