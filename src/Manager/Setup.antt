-- ===== src/Manager/Setup.antt =====
-- cmd/manager/main.go: what the servers' TLS options do, and what a manager that was set up runs.
use kubevirt_wol.Common.{
  append_assoc, String, append-nil, refl, [], none, some, inl, inr, ok, err, arith, Bool-cases, sym,
  codes, Text, Result, Option, List, if◌then◌else◌, text_eq, ◌∷◌, ◌++◌, ◌≡◌, ◌≢◌, ◌∙◌,
}
use kubevirt_wol.Manager.{
  Flags, Environment, TlsConfig, TlsOption, Runnable, cert_watcher, startup_reconciler,
  disable_http2, use_certificate, tls_options, with_watcher, manager_options, Framework, exit_with,
  watched, cert_watcher_for, add_startup_reconciler, add_cert_watcher, setup, ◌>>=◌,
}

module _ {W : Type 0} where
  -- The options of a server, applied in their order.
  abbrev pub apply_all : List (TlsOption W) → TlsConfig W → TlsConfig W
  apply_all [] c = c
  apply_all (o ∷ os) c = apply_all os (o c)

  abbrev pub or_else : Option W → Option W → Option W
  or_else none o = o
  or_else (some w) o = some w

  -- HTTP/1.1 only, unless the flag allows HTTP/2; and the certificates of the watcher, if there is one.
  abbrev pub configured : Flags → Option W → TlsConfig W → TlsConfig W
  configured flags watcher c = record {
    next_protos = if flags.enable_http2 then c.next_protos else codes "http/1.1" ∷ [];
    get_certificate = or_else watcher c.get_certificate;
  }

  with_watcher-configured :
      (flags : Flags) (w : Option W) (c : TlsConfig W)
      → apply_all (with_watcher (tls_options flags) w) c ≡ configured flags w c
  unfolding tls_options disable_http2 use_certificate
  with_watcher-configured flags none c = elim (Bool-cases flags.enable_http2) [
    | inl e ↦ rw e refl
    | inr e ↦ rw e refl
  ]
  with_watcher-configured flags (some w) c = elim (Bool-cases flags.enable_http2) [
    | inl e ↦ rw e refl
    | inr e ↦ rw e refl
  ]

  -- Whatever the flags and the certificate watchers, each of the two servers speaks HTTP/1.1 only
  -- unless the flag allows HTTP/2, and takes its certificates from its own watcher, never from the
  -- other's; and the metrics are served with authorization exactly when they are served securely.
  pub manager_options-configured :
      (flags : Flags) (webhook metrics : Option W) (c : TlsConfig W)
      → let o = manager_options flags webhook metrics in
        (apply_all o.webhook_tls c ≡ configured flags webhook c)
        × (apply_all o.metrics_tls c ≡ configured flags metrics c)
        × (o.metrics_authorized ≡ o.metrics_secure_serving)
  unfolding manager_options
  manager_options-configured flags webhook metrics c =
      (with_watcher-configured flags webhook c, with_watcher-configured flags metrics c, refl)

bind-ok :
    {A B : Type 0} (m : Result Text A) (f : A → Result Text B) {b : B}
    → (m >>= f) ≡ ok b
    → (a : A) × (m ≡ ok a) × (f a ≡ ok b)
bind-ok (ok a) f h = (a, refl, h)
bind-ok (err e) f h = cc

exit_with-ok :
    {A : Type 0} (message : String) (r : Result Text A) {a : A}
    → exit_with message r ≡ ok a
    → r ≡ ok a
exit_with-ok message (ok a) h = h
exit_with-ok message (err e) h = cc

watched-ok :
    {W : Type 0} (r : Result Text W) {o : Option W}
    → watched r ≡ ok o
    → (w : W) × (r ≡ ok w) × (o ≡ some w)
watched-ok (ok w) h = (w, refl, ground arith)
watched-ok (err e) h = cc

module _ {W M : Type 0} (fw : Framework W M) where
  -- A watcher of the files in a path, if one is given.
  pub data Made (path name key : Text) (o : Option W) : Type 0 where
    absent : path ≡ [] → o ≡ none → Made path name key o
    present :
        (w : W)
        → path ≢ []
        → fw.watcher (fw.in_directory path name) (fw.in_directory path key) ≡ ok w
        → o ≡ some w
        → Made path name key o

  cert_watcher_for-Made :
      (message : String) (path name key : Text) {o : Option W}
      → cert_watcher_for fw message path name key ≡ ok o
      → Made path name key o
  unfolding cert_watcher_for
  cert_watcher_for-Made message [] name key h = absent refl (ground arith)
  cert_watcher_for-Made message (c ∷ path) name key {o} h =
      let h' : exit_with message (
            watched (fw.watcher (fw.in_directory (c ∷ path) name) (fw.in_directory (c ∷ path) key)))
          ≡ ok o =
        ground arith in
      let (w, e, same) = watched-ok _ (exit_with-ok message _ h') in present w (λ empty. cc) e same

  -- What the framework is documented to do: a new manager runs nothing, and what is added to it is
  -- run, behind what was added before.
  pub record RunsAdded (runs : M → List (Runnable W)) (reconciles : M → Option Environment)
      : Type 0 where
    pub starts :
        (flags : Flags) (webhook metrics : Option W) (m : M)
        → fw.new_manager (manager_options flags webhook metrics) ≡ ok m
        → runs m ≡ []
    pub controls :
        (env : Environment) (m m' : M)
        → fw.setup_controller env m ≡ ok m'
        → (runs m' ≡ runs m) × (reconciles m' ≡ some env)
    pub adds :
        (r : Runnable W) (m m' : M)
        → fw.add r m ≡ ok m'
        → (runs m' ≡ runs m ++ r ∷ []) × (reconciles m' ≡ reconciles m)
    pub checks_health :
        (name : Text) (m m' : M)
        → fw.add_healthz_check name m ≡ ok m'
        → (runs m' ≡ runs m) × (reconciles m' ≡ reconciles m)
    pub checks_ready :
        (name : Text) (m m' : M)
        → fw.add_readyz_check name m ≡ ok m'
        → (runs m' ≡ runs m) × (reconciles m' ≡ reconciles m)

abbrev pub startup_of : {W : Type 0} → Environment → List (Runnable W)
startup_of env = if text_eq env.agent_image [] then [] else startup_reconciler env ∷ []

abbrev pub watcher_of : {W : Type 0} → Option W → List (Runnable W)
watcher_of none = []
watcher_of (some w) = cert_watcher w ∷ []

module _ {W M : Type 0} {fw : Framework W M} {runs : M → List (Runnable W)}
    {reconciles : M → Option Environment} (laws : RunsAdded fw runs reconciles) where
  open laws use {starts, controls, adds, checks_health, checks_ready}

  -- The second manager runs what the first does, and the list, and reconciles the same.
  abbrev Adds : M → M → List (Runnable W) → Type 0
  Adds m m' rs = (runs m' ≡ runs m ++ rs) × (reconciles m' ≡ reconciles m)

  startup-Adds :
      (env : Environment) (m m' : M)
      → add_startup_reconciler fw env m ≡ ok m'
      → Adds m m' (startup_of env)
  startup-Adds env m m' h = elim (Bool-cases (text_eq env.agent_image [])) [
    | inl unset ↦
        let e : m ≡ m' = ground (arith, unset) in rw (← e, unset) (sym (append-nil (runs m)), refl)
    | inr isset ↦
        let e : exit_with "unable to add startup reconciler" (fw.add (startup_reconciler env) m)
            ≡ ok m' =
          ground (arith, isset) in
        rw isset
          (adds (startup_reconciler env) m m' (exit_with-ok "unable to add startup reconciler" _ e))
  ]

  watcher-Adds :
      (message : String) (o : Option W) (m m' : M)
      → add_cert_watcher fw message o m ≡ ok m'
      → Adds m m' (watcher_of o)
  watcher-Adds message none m m' h =
      let e : m ≡ m' = ground arith in rw (← e) (sym (append-nil (runs m)), refl)
  watcher-Adds message (some w) m m' h = adds (cert_watcher w) m m' (exit_with-ok message _ h)

  -- When the manager could be set up, its controller and its startup check have the image and the
  -- namespace of the environment; the startup check is run exactly when an image is set, and each
  -- certificate watcher exactly when its path is given, with the files in that path.
  pub setup-runs :
      (flags : Flags) (env : Environment) (m : M)
      → setup fw flags env ≡ ok m
      → (webhook : Option W) × (metrics : Option W) × Made fw flags.webhook_cert_path
          flags.webhook_cert_name flags.webhook_cert_key webhook
        × Made fw flags.metrics_cert_path flags.metrics_cert_name flags.metrics_cert_key metrics
        × (reconciles m ≡ some env)
        × (runs m ≡ startup_of env ++ (watcher_of metrics ++ watcher_of webhook))
  unfolding setup
  setup-runs flags env m h =
      let (webhook, made_webhook, h) = bind-ok _ _ h in
      let (metrics, made_metrics, h) = bind-ok _ _ h in
      let (m0, e0, h) = bind-ok _ _ h in
      let (m1, e1, h) = bind-ok _ _ h in
      let (m2, e2, h) = bind-ok _ _ h in
      let (m3, e3, h) = bind-ok _ _ h in
      let (m4, e4, h) = bind-ok _ _ h in
      let (m5, e5, h) = bind-ok _ _ h in
      let none_yet =
        starts flags webhook metrics m0 (exit_with-ok "unable to start manager" _ e0) in
      let (r1, c1) = controls env m0 m1 (exit_with-ok "unable to create controller" _ e1) in
      let (r2, c2) = startup-Adds env m1 m2 e2 in
      let (r3, c3) =
        watcher-Adds "Unable to add metrics certificate watcher to manager" metrics m2 m3 e3 in
      let (r4, c4) =
        watcher-Adds "Unable to add webhook certificate watcher to manager" webhook m3 m4 e4 in
      let (r5, c5) = checks_health _ m4 m5 (exit_with-ok "unable to set up health check" _ e5) in
      let (r6, c6) = checks_ready _ m5 m (exit_with-ok "unable to set up ready check" _ h) in
      (
        webhook,
        metrics,
        cert_watcher_for-Made fw "Failed to initialize webhook certificate watcher" _ _ _
            made_webhook,
        cert_watcher_for-Made fw "Failed to initialize metrics certificate watcher" _ _ _
            made_metrics,
        c6 ∙ (c5 ∙ (c4 ∙ (c3 ∙ (c2 ∙ c1)))),
        rw (r6, r5, r4, r3, r2, r1, none_yet)
            (append_assoc (startup_of env) (watcher_of metrics) (watcher_of webhook)),
      )
