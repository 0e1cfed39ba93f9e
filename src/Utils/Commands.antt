-- ===== src/Utils/Commands.antt =====
-- test/utils/utils.go: the commands that the end-to-end tests run. What is printed is left out.
pub mod Crds
use cilion.Base.{
  ℕ, zero, suc, ◌-◌, Bytes, codes, length, List, [], ◌∷◌, ◌++◌, Option, none, some, Bool, true,
  false, ◌||◌, if◌then◌else◌,
}
use cilion.Effect.{Error, wrap}
use cilion.Utils.{index, has_prefix, get_non_empty_lines}

-- `exec.Cmd`
pub record Cmd : Type 0 where
  pub args : List Bytes
  pub dir : Bytes
  pub env : List Bytes

-- `exec.Command`
abbrev pub command : List Bytes → Cmd
command args = record { args = args; dir = []; env = [] }

-- What the operating system is asked: a call gives a value and maybe an error beside it.
pub record Shell : Type 1 where
  pub World : Type 0
  pub getwd : World → (Bytes × Option Error) × World
  pub chdir : Bytes → World → Option Error × World
  pub environ : World → List Bytes
  pub lookup_env : Bytes → World → Option Bytes
  pub combined_output : Cmd → World → (Bytes × Option Error) × World

-- `strings.Join(args, " ")`
unfoldable pub join_spaces : List Bytes → Bytes
join_spaces [] = []
join_spaces (a ∷ []) = a
join_spaces (a ∷ b ∷ l) = a ++ (b' ' ∷ join_spaces (b ∷ l))

-- `strings.ReplaceAll(s, old, "")` for an `old` that is not empty; the number is how much of an
-- occurrence is left to skip.
unfoldable pub removed : Bytes → ℕ → Bytes → Bytes
removed old n [] = []
removed old (suc n) (c ∷ s) = removed old n s
removed old zero (c ∷ s) =
    let skipped = removed old (length old - 1) s in
    let kept = removed old zero s in if has_prefix old (c ∷ s) then skipped else c ∷ kept

abbrev pub cert_manager_crds : List Bytes
cert_manager_crds =
    codes "certificates.cert-manager.io"
    ∷ codes "issuers.cert-manager.io"
    ∷ codes "clusterissuers.cert-manager.io"
    ∷ codes "certificaterequests.cert-manager.io"
    ∷ codes "orders.acme.cert-manager.io"
    ∷ codes "challenges.acme.cert-manager.io"
    ∷ []

-- `strings.Contains`
unfoldable pub contains : Bytes → Bytes → Bool
contains line crd = is_some (index line crd)
  where
    is_some : Option ℕ → Bool
    is_some none = false
    is_some (some n) = true

-- The two loops of `IsCertManagerCRDsInstalled`, which end at the first match.
unfoldable pub in_lines : Bytes → List Bytes → Bool
in_lines crd [] = false
in_lines crd (line ∷ lines) =
    let rest = in_lines crd lines in if contains line crd then true else rest

unfoldable pub any_installed : List Bytes → List Bytes → Bool
any_installed [] lines = false
any_installed (crd ∷ crds) lines =
    let rest = any_installed crds lines in if in_lines crd lines then true else rest

abbrev pub get_crds : List Bytes
get_crds = codes "kubectl" ∷ codes "get" ∷ codes "crds" ∷ []

abbrev pub url : Bytes
url =
    codes "https://github.com/cert-manager/cert-manager/releases/download/v1.20.2/cert-manager.yaml"

module _ (S : Shell) where
  unfoldable pub get_project_dir : S.World → (Bytes × Option Error) × S.World
  get_project_dir w = project_dir (S.getwd w)
    where
      project_dir : (Bytes × Option Error) × S.World → (Bytes × Option Error) × S.World
      project_dir ((wd, some e), w) =
          ((wd, some (wrap (codes "failed to get current working directory: %w") [] e)), w)
      project_dir ((wd, none), w) = ((removed (codes "/test/e2e") 0 wd, none), w)

  abbrev pub failed : Cmd → (Bytes × Option Error) × S.World → (Bytes × Option Error) × S.World
  failed cmd ((output, none), w) = ((output, none), w)
  failed cmd ((output, some e), w) = (
    (
      output,
      some (wrap (codes "%q failed with error %q: %w") (join_spaces cmd.args ∷ output ∷ []) e),
    ),
    w,
  )

  -- `Run`, which goes on where the directory cannot be found or changed to.
  unfoldable pub run : Cmd → S.World → (Bytes × Option Error) × S.World
  run cmd w =
      let d = get_project_dir w in
      let w₁ = (S.chdir d.0.0 d.1).1 in
      let cmd₁ = record cmd { dir = d.0.0; env = S.environ w₁ ++ (codes "GO111MODULE=on" ∷ []) } in
      failed cmd (S.combined_output cmd₁ w₁)

  -- `_, err := Run(cmd)`
  abbrev pub run_error : List Bytes → S.World → Option Error × S.World
  run_error args w = let r = run (command args) w in (r.0.1, r.1)

  -- An error is printed and left.
  unfoldable pub delete_leases : List Bytes → S.World → S.World
  delete_leases [] w = w
  delete_leases (lease ∷ leases) w =
      delete_leases leases
        (run_error
          (codes "kubectl"
            ∷ codes "delete"
            ∷ codes "lease"
            ∷ lease
            ∷ codes "-n"
            ∷ codes "kube-system"
            ∷ codes "--ignore-not-found"
            ∷ codes "--force"
            ∷ codes "--grace-period=0"
            ∷ [])
          w).1

  unfoldable pub uninstall_cert_manager : S.World → S.World
  uninstall_cert_manager w =
      delete_leases
        (codes "cert-manager-cainjector-leader-election" ∷ codes "cert-manager-controller" ∷ [])
        (run_error (codes "kubectl" ∷ codes "delete" ∷ codes "-f" ∷ url ∷ []) w).1

  -- `if _, err := Run(cmd); err != nil { return err }`, and the next command.
  abbrev pub then_run : List Bytes → Option Error × S.World → Option Error × S.World
  then_run args (some e, w) = (some e, w)
  then_run args (none, w) = run_error args w

  unfoldable pub install_cert_manager : S.World → Option Error × S.World
  install_cert_manager w =
      then_run
        (codes "kubectl"
          ∷ codes "wait"
          ∷ codes "deployment.apps/cert-manager-webhook"
          ∷ codes "--for"
          ∷ codes "condition=Available"
          ∷ codes "--namespace"
          ∷ codes "cert-manager"
          ∷ codes "--timeout"
          ∷ codes "5m"
          ∷ [])
        (run_error (codes "kubectl" ∷ codes "apply" ∷ codes "-f" ∷ url ∷ []) w)

  abbrev pub listed : (Bytes × Option Error) × S.World → Bool × S.World
  listed ((output, some e), w) = (false, w)
  listed ((output, none), w) = (any_installed cert_manager_crds (get_non_empty_lines output), w)

  unfoldable pub is_cert_manager_crds_installed : S.World → Bool × S.World
  is_cert_manager_crds_installed w = listed (run (command get_crds) w)

  -- `if v, ok := os.LookupEnv(name); ok { … = v }`
  abbrev pub from_env : Bytes → Bytes → S.World → Bytes
  from_env name otherwise w = elim (S.lookup_env name w) [ none ↦ otherwise | some v ↦ v ]

  unfoldable pub load_image_to_kind_cluster_with_name : Bytes → S.World → Option Error × S.World
  load_image_to_kind_cluster_with_name name w =
      run_error
        (from_env (codes "KIND") (codes "kind") w
          ∷ codes "load"
          ∷ codes "docker-image"
          ∷ name
          ∷ codes "--name"
          ∷ from_env (codes "KIND_CLUSTER") (codes "kind") w
          ∷ [])
        w
