-- ===== src/Client/Calls.antt =====
-- simulboot-client/src/main.rs: which command lines `Config::from_args` accepts, and as what.
use simulboot.Base.{
  ◌≤◌, ◌≡◌, refl, ◌∙◌, false, Option, some, List, [], ◌∷◌, ◌++◌, append-nil, append_assoc, arith,
  Bytes, codes, Lacks, All, bytes_eq, ok,
}
use simulboot.Base.Decimal.{to_string, parse_uint-to_string, u16_max}
use simulboot.Float.{Float, Printable}
use simulboot.Cli.{parse_args, help_or_unknown}
use simulboot.Client.Config.{
  Mode, live, resume_mode, Config, Parsing, split_x, parse_viewport, flags, choose_mode, defaults,
  from_args,
}

-- The width's print, an `x`, and the height's.
split_x-append : (w h : Bytes) → Lacks b'x' w → Lacks b'X' w → split_x (w ++ b'x' ∷ h) ≡ some (w, h)
unfolding split_x
split_x-append [] h small large = refl
split_x-append (c ∷ w) h small large = ground (arith, split_x-append w h small.1 large.1)

module _ (f : Float) (printable : Printable f) {A : Type 0} (parse : Bytes → Option A)
    (show : A → Bytes) where
  open f use {Carrier}

  -- The command line of a configuration.
  abbrev pub mode_args : Mode A → List Bytes → List Bytes
  mode_args (live []) rest = rest
  mode_args (live (h ∷ hosts)) rest = codes "--host" ∷ show h ∷ mode_args (live hosts) rest
  mode_args (resume_mode url) rest = codes "--resume" ∷ url ∷ rest

  abbrev pub args_of : Config Carrier A → List Bytes
  args_of cfg = mode_args cfg.mode (
      codes "--viewport"
      ∷ (f.display cfg.viewport.0 ++ b'x' ∷ f.display cfg.viewport.1)
      ∷ codes "--out"
      ∷ cfg.out
      ∷ codes "--broker-port"
      ∷ to_string cfg.broker_port
      ∷ [])

  abbrev pub ModeFits : Mode A → Type 0
  ModeFits (live []) = ⊥
  ModeFits (live (h ∷ hosts)) = All (λ a. parse (show a) ≡ some a) (h ∷ hosts)
  ModeFits (resume_mode url) = Unit

  hosts_read :
      (hosts : List A) (rest : List Bytes) (st : Parsing Carrier A)
      → All (λ a. parse (show a) ≡ some a) hosts
      → parse_args (flags f parse) help_or_unknown (mode_args (live hosts) rest) st
        ≡ parse_args (flags f parse) help_or_unknown rest (record st { hosts = st.hosts ++ hosts })
  unfolding parse_args flags bytes_eq
  hosts_read [] rest st h = rw (append-nil st.hosts) refl
  hosts_read (a ∷ hosts) rest st h = rw (h.0) (
      hosts_read hosts rest (record st { hosts = st.hosts ++ a ∷ [] }) h.1
      ∙ rw (append_assoc st.hosts (a ∷ []) hosts) refl)

  viewport_read :
      (w h : Carrier)
      → f.is_nan w ≡ false
      → f.is_nan h ≡ false
      → Lacks b'x' (f.display w)
      → Lacks b'X' (f.display w)
      → parse_viewport f (f.display w ++ b'x' ∷ f.display h) ≡ ok (w, h)
  unfolding parse_viewport
  viewport_read w h number_w number_h small large =
      rw (split_x-append (f.display w) (f.display h) small large)
        (rw (printable.parse-display w number_w) (rw (printable.parse-display h number_h) refl))

  options_read :
      (cfg : Config Carrier A) (st : Parsing Carrier A)
      → parse_viewport f (f.display cfg.viewport.0 ++ b'x' ∷ f.display cfg.viewport.1)
        ≡ ok cfg.viewport
      → cfg.broker_port ≤ u16_max
      → parse_args
          (flags f parse)
          help_or_unknown
          (codes "--viewport"
            ∷ (f.display cfg.viewport.0 ++ b'x' ∷ f.display cfg.viewport.1)
            ∷ codes "--out"
            ∷ cfg.out
            ∷ codes "--broker-port"
            ∷ to_string cfg.broker_port
            ∷ [])
          st
        ≡ ok (record st { viewport = cfg.viewport; out = cfg.out; broker_port = cfg.broker_port })
  unfolding parse_args flags bytes_eq
  options_read cfg st view port =
      rw view (rw (parse_uint-to_string u16_max cfg.broker_port port) refl)

  mode_read :
      (cfg : Config Carrier A) (mode : Mode A) {hosts : List A} {resume : Option Bytes}
      → parse_args
          (flags f parse)
          help_or_unknown
          (args_of (record cfg { mode = mode }))
          (defaults f parse)
        ≡ ok (record (defaults f parse) {
          hosts = hosts;
          resume = resume;
          viewport = cfg.viewport;
          out = cfg.out;
          broker_port = cfg.broker_port;
        })
      → choose_mode f parse resume hosts ≡ ok mode
      → from_args f parse (args_of (record cfg { mode = mode })) ≡ ok (record cfg { mode = mode })
  unfolding from_args
  mode_read cfg mode read chosen = rw read (rw chosen refl)

  -- Every configuration can be asked for, and is what comes of asking: `from_args` reads back the
  -- command line with a `--host` for each host, or a `--resume`, and with the other options. There is
  -- a host or a URL, the addresses are read back from their prints, the width and the height are
  -- numbers, the width's print has no `x`, and the port fits a `u16`.
  pub from_args-args_of :
      (cfg : Config Carrier A)
      → ModeFits cfg.mode
      → f.is_nan cfg.viewport.0 ≡ false
      → f.is_nan cfg.viewport.1 ≡ false
      → Lacks b'x' (f.display cfg.viewport.0)
      → Lacks b'X' (f.display cfg.viewport.0)
      → cfg.broker_port ≤ u16_max
      → from_args f parse (args_of cfg) ≡ ok cfg
  unfolding choose_mode parse_args flags bytes_eq
  from_args-args_of cfg fits number_w number_h small large port =
      let view = viewport_read cfg.viewport.0 cfg.viewport.1 number_w number_h small large in
      go cfg.mode fits view
    where
      go :
          (mode : Mode A)
          → ModeFits mode
          → parse_viewport f (f.display cfg.viewport.0 ++ b'x' ∷ f.display cfg.viewport.1)
            ≡ ok cfg.viewport
          → from_args f parse (args_of (record cfg { mode = mode }))
            ≡ ok (record cfg { mode = mode })
      go (live []) fits view = absurd fits
      go (live (a ∷ hosts)) fits view =
          mode_read cfg (live (a ∷ hosts))
            (hosts_read (a ∷ hosts) _ (defaults f parse) fits
              ∙ options_read cfg (record (defaults f parse) { hosts = a ∷ hosts }) view port)
            refl
      go (resume_mode url) fits view =
          mode_read cfg (resume_mode url)
            (options_read cfg (record (defaults f parse) { resume = some url }) view port) refl
