-- ===== src/Client/Suspend.antt =====
-- simulboot-client/src/main.rs: `suspend_and_serve`, up to the image that it hands to the broker.
use simulboot.Base.{
  ℕ, ◌+◌, Bool, List, [], ◌∷◌, ◌++◌, if◌then◌else◌, Bytes, codes, Result, ok, ◌>>=◌,
}
use simulboot.Float.{Float}
use simulboot.Session.{Crypto}
use simulboot.Session.Write.{to_xml, declared_or_computed}
use simulboot.Strip.{Strip}
use simulboot.Broker.{ServedImage, new_xml}
use simulboot.Client.Links.{Link, map_err}
use simulboot.Client.Links.Tasks.{suspend_link}
use simulboot.Client.Checkpoint.{image_from_strip}

module _ {ℓ κ} {F : Type ℓ} {T : Type κ} where
  -- The futures are awaited one after another.
  unfoldable pub push_awaited : (F → T) → List F → List T → List T
  push_awaited await [] out = out
  push_awaited await (f ∷ futs) out = push_awaited await futs (out ++ await f ∷ [])

  unfoldable pub futures_join_all : (F → T) → List F → List T
  futures_join_all await futs = push_awaited await futs []

-- `acks.iter().filter(|ok| **ok).count()`
unfoldable pub count_acked : List Bool → ℕ
count_acked [] = 0
count_acked (acked ∷ rest) = (if acked then 1 else 0) + count_acked rest

-- What a suspension leaves: the count of hosts that have acknowledged it, the bytes in the file, and
-- what the broker serves.
pub record Suspended : Type 0 where
  pub acked : ℕ
  pub file : Bytes
  pub served : ServedImage

-- `heard` is what comes of a link's `Suspend`: whether it was sent, and the acknowledgements before
-- the timeout. `write` is `std::fs::write`, `created` the clock's time stamp, and `into_bytes` the UTF-8
-- encoding of a text, `String::into_bytes` and what `write` takes of a `&String`.
module _ (f : Float) (cr : Crypto) {A E : Type 0} (show_addr : A → Bytes)
    (into_bytes : Bytes → Bytes) where
  unfoldable pub suspend_and_serve :
      (Link A → Bool × ℕ)
      → (Bytes → Bytes → Result E (Unit {0}))
      → List (Link A)
      → Strip f.Carrier A
      → Bytes
      → Bytes
      → Result Bytes Suspended
  suspend_and_serve heard write links strip created out =
      let acks = futures_join_all (λ l. suspend_link (heard l).0 (heard l).1) links in
      let image = image_from_strip f cr show_addr strip created in
      let id = declared_or_computed f cr image.id image in
      let xml = to_xml f cr image in
      map_err (λ e. codes "writing session image to " ++ out) (write out (into_bytes xml))
      >>= λ done. ok (record {
        acked = count_acked acks;
        file = into_bytes xml;
        served = new_xml id (into_bytes xml);
      })
