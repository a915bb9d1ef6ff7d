-- ===== src/Settings/Listen.antt =====
-- The listen address that `Load` returns.
use audio_service.Base.{◌≡◌, ap, ◌⊎◌, true, [], ◌∷◌, arith}
use audio_service.Base.Text.{Text, contains, has_prefix}
use audio_service.Fault.{Result, ok, err}
use audio_service.Settings.{Settings, listen_address, load, colon}

colon-contains : (l : Text) → contains (b':' ∷ l) colon ≡ true
unfolding contains has_prefix
colon-contains l = ground arith

listen_address-ready :
    (l : Text) → (listen_address l ≡ []) ⊎ (contains (listen_address l) colon ≡ true)
unfolding listen_address
listen_address-ready l = ground (arith, colon-contains l)

listen_address_of_ready : (l : Text) → (l ≡ []) ⊎ (contains l colon ≡ true) → listen_address l ≡ l
unfolding listen_address
listen_address_of_ready l h = ground arith

-- The settings that are loaded have an address that is empty or holds a colon, as net.Listen asks;
-- loading settings that are loaded changes nothing.
pub load-listen :
    {F : Type 0} (read : Result (Settings F)) (c : Settings F)
    → load read ≡ ok c
    → ((c.listen ≡ []) ⊎ (contains c.listen colon ≡ true)) × (load (ok c) ≡ ok c)
unfolding load
load-listen (err e) c h = cc
load-listen (ok c) d h =
    let same : listen_address c.listen ≡ d.listen = ground arith in
    let ready = rw same at (listen_address-ready c.listen) in
    (ready, ap (λ l. ok (record d { listen = l })) (listen_address_of_ready d.listen ready))
