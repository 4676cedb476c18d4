-- ===== src/Tests/Data.antt =====
-- Concrete data for the tests.
use Prim.Native.String.{String}
use ne_xt_server.Audit.Auditor.{Auditor, MatchApi}
use ne_xt_server.Panel.Config.{FloatApi}
use ne_xt_server.Base.{
  ◌==◌, ◌*◌, ℕ, refl, inl, inr, [], ◌∷◌, arith, leb, if◌then◌else◌, List, false, some,
}
use ne_xt_server.Adapter.{User, DetectLog, DetectRule}
use text.Mathlib.Text.{◌==◌ as str_eq}
use ne_xt_server.Base.{not, ◌&&◌}
use ne_xt_server.Base.Int.{pos}
use ne_xt_server.Limit.Bucket.{RateApi}
use ne_xt_server.Limit.Ops.{limiter_ops}
use ne_xt_server.Users.State.{LimiterOps}
use ne_xt_server.Metadata.{SocksaddrMethods, Socksaddr, Metadata}
use ne_xt_server.Netip.{Addr, v4, is_valid}

-- A limiter that is its rate and its burst, and refuses what is larger than the burst.
abbrev pub steady_rate : RateApi
steady_rate = record {
  Rate = ℕ;
  Error = Unit;
  RateLimiter = ℕ × ℕ;
  to_rate = λ n. n;
  new_limiter = λ r b. (r, b);
  set_limit = λ l r. (r, l.1);
  set_burst = λ l b. (l.0, b);
  limit = λ l. l.0;
  burst = λ l. l.1;
  wait_n = λ l n. if leb n (l.1) then inr l else inl tt;
  limit-new_limiter = λ r b. refl;
  burst-new_limiter = λ r b. refl;
  limit-set_limit = λ l r. refl;
  burst-set_limit = λ l r. refl;
  limit-set_burst = λ l b. refl;
  burst-set_burst = λ l b. refl;
  burst-wait_n = λ l l' n h. ground arith;
}

abbrev pub ops : LimiterOps
ops = limiter_ops steady_rate

-- An address without a domain is an IP address if it is valid.
abbrev pub methods : SocksaddrMethods
methods = record {
  is_ip = λ s. is_valid s.addr;
  is_fqdn = λ s. not (str_eq s.fqdn "") && not (is_valid s.addr);
  is_ip-is_valid = λ s. refl;
  is_fqdn-is_ip = λ s h. ground arith;
}

abbrev pub user : ℕ → User
user n = record { id = pos n; uuid = ""; password = ""; speed_limit = 1000 }

abbrev pub socksaddr : Addr → Socksaddr
socksaddr a = record { addr = a; port = 443; fqdn = "" }

-- 8.8.8.8 and 10.0.0.1
abbrev pub public : Addr
public = v4 0x0808_0808

abbrev pub private : Addr
private = v4 0x0a00_0001

-- A connection to an address, whose name resolves to a private and a public one.
abbrev pub metadata : Addr → Metadata
metadata a = record {
  source = socksaddr public;
  destination = socksaddr a;
  destination_addresses = private ∷ public ∷ [];
  domain = "";
}

-- Expressions that match their own text, and a payload that encodes to "00".
abbrev pub matching : MatchApi
matching = record {
  Regexp = String;
  match_string = λ r s. str_eq r s;
  match_bytes = λ r b. false;
  encode_to_string = λ b. "00";
}

abbrev pub rule : ℕ → ℕ → String → DetectRule String
rule id type text = record { id = pos id; type = pos type; regexp = text }

-- A plain rule and a hex rule.
abbrev pub rules : List (DetectRule String)
rules = rule 1 1 "example.org" ∷ rule 2 2 "00" ∷ []

abbrev pub log : ℕ → ℕ → DetectLog
log u r = record { user_id = pos u; rule_id = pos r }

abbrev pub auditor : Auditor String
auditor = record { rules = some rules; hits = (log 1 2, tt) ∷ [] }

-- Numbers for floats: Mbps become bytes per second.
abbrev pub floats : FloatApi
floats = record {
  Float = ℕ;
  zero_float = 0;
  is_not_positive = λ n. n == 0;
  bytes_of_mbps = λ n. n * 125000;
  to_int64 = pos;
}
