-- ===== src/Examples/Formats.antt =====
-- The theorems on the texts of a PDF, and on the key of a client behind a proxy.
use go_invoicing.Base.{◌≡◌, refl, false, some, [], ◌∷◌, arith}
use go_invoicing.Base.Int.{negsuc}
use go_invoicing.Base.Text.{upper_code, is_space, trim_space, Text, codes, text_eq}
use go_invoicing.Invoice.Format.Laws.{format_money_injective}
use go_invoicing.RateLimit.ClientAddress.{NetOps, client_address_key}
use go_invoicing.RateLimit.Forwarded.{forged_values_are_ignored}

format_money_injective_example : negsuc 9223372036854775807 ≡ negsuc 9223372036854775807
unfolding trim_space is_space upper_code
format_money_injective_example =
    format_money_injective (λ c. c) (negsuc 9223372036854775807) (negsuc 9223372036854775807)
      (codes " gbp") 0xA3 (omega arith, omega arith) (omega arith, omega arith) refl refl

-- Addresses that are texts, where a prefix holds the address that is spelled like it.
abbrev net : NetOps
net = record {
  Addr = Text;
  Prefix = Text;
  parse = λ t. some t;
  unmap = λ a. a;
  contains = text_eq;
  host = λ t. some t;
  is6 = λ a. false;
  prefix64 = λ a. a;
  print = λ a. a;
}

forged_values_are_ignored_example :
    client_address_key net
      (codes "proxy" ∷ [])
      (codes "proxy")
      (codes "forged" ∷ codes "client, proxy" ∷ [])
    ≡ client_address_key net (codes "proxy" ∷ []) (codes "proxy") (codes "client, proxy" ∷ [])
unfolding trim_space is_space
forged_values_are_ignored_example =
    forged_values_are_ignored net (codes "proxy") [] (codes "proxy") (codes "forged" ∷ [])
      (codes "client, proxy") (codes "client") refl
