-- ===== src/Worker/Outcomes.antt =====
-- Predicates on what stands in the results of the callbacks.
use tcpkali.Base.{Bool, true, false, ◌==◌, if◌then◌else◌}
use tcpkali.Worker.Connections.{Outcome, proceeds, exits, faults, ◌>>=◌}
use tcpkali.Worker.Sending.{Sending, WriteEnd, ended, reset, unfinished, broken, while_body}

abbrev pub Holds {ℓ κ} : {A : Type ℓ} → (A → Type κ) → Outcome A → Type κ
Holds P (proceeds a) = P a
Holds P (exits status) = Unit
Holds P faults = Unit

pub Holds-bind {ℓ κ μ ν} :
    {A : Type ℓ} {B : Type κ} (P : A → Type μ) (Q : B → Type ν) (o : Outcome A) (f : A → Outcome B)
    → Holds P o
    → ((a : A) → P a → Holds Q (f a))
    → Holds Q (o >>= f)
Holds-bind P Q (proceeds a) f h k = k a h
Holds-bind P Q (exits status) f h k = tt
Holds-bind P Q faults f h k = tt

pub Holds-mono {ℓ μ ν} :
    {A : Type ℓ} (P : A → Type μ) (Q : A → Type ν) (o : Outcome A)
    → Holds P o
    → ((a : A) → P a → Q a)
    → Holds Q o
Holds-mono P Q (proceeds a) h k = k a h
Holds-mono P Q (exits status) h k = tt
Holds-mono P Q faults h k = tt

pub Holds-both {ℓ μ ν} :
    {A : Type ℓ} (P : A → Type μ) (Q : A → Type ν) (o : Outcome A)
    → Holds P o
    → Holds Q o
    → Holds (λ a. P a × Q a) o
Holds-both P Q (proceeds a) h k = (h, k)
Holds-both P Q (exits status) h k = tt
Holds-both P Q faults h k = tt

-- Both branches of a conditional.
pub if_lem {ℓ κ} :
    {A : Type ℓ} (P : A → Type κ) (b : Bool) (x y : A) → P x → P y → P (if b then x else y)
if_lem P true x y px py = px
if_lem P false x y px py = py

abbrev pub EndHolds {ℓ} : (Sending → Type ℓ) → WriteEnd → Type ℓ
EndHolds P (ended s) = P s
EndHolds P (reset s) = P s
EndHolds P (unfinished s) = P s
EndHolds P broken = Unit

pub EndHolds-while_body {ℓ} :
    (P : Sending → Type ℓ) (more : Sending → WriteEnd) (o : Outcome Sending)
    → Holds P o
    → ((s : Sending) → P s → EndHolds P (more s))
    → EndHolds P (while_body more o)
EndHolds-while_body P more (proceeds s) h k =
    if_lem (EndHolds P) (s.available_body == 0) (ended s) (more s) h (k s h)
EndHolds-while_body P more (exits status) h k = tt
EndHolds-while_body P more faults h k = tt
