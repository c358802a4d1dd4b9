-- ===== src/Validation/PriceRules.antt =====
-- core/validation/price_rules.py
use hungrx_agent.Prelude.{
  ◌||◌, not, Option, none, some, List, [], ◌∷◌, ◌++◌, length, ◌==◌, if◌then◌else◌,
}
use hungrx_agent.Text.{Text, Unicode, text_eq, is_alpha}
use hungrx_agent.Decimal.{Decimal, decimal, less, is_zero}
use hungrx_agent.Schema.Menu.{Dish}
use hungrx_agent.Validation.Result.{
  Place, at, key, ValidationIssue, error, warning, implausible_price, zero_price,
  malformed_currency_code, lowercase_currency_code, price_exceeds, price_is_zero,
  currency_malformed, currency_should_be,
}

abbrev pub max_plausible_price : Decimal
max_plausible_price = decimal 500

-- The two checks of a price that is given.
price_issues : Option Decimal → Text → Place → List ValidationIssue
price_issues none currency prefix = []
price_issues (some price) currency prefix =
    (if less max_plausible_price price
      then record {
        field_path = at (prefix ++ (key "price" ∷ []));
        code = implausible_price;
        message = price_exceeds price currency;
        severity = error;
      }
        ∷ []
      else [])
    ++ (if is_zero price
        then record {
          field_path = at (prefix ++ (key "price" ∷ []));
          code = zero_price;
          message = price_is_zero;
          severity = warning;
        }
          ∷ []
        else [])

module _ (u : Unicode) where
  unfoldable pub currency_issues : Text → Place → List ValidationIssue
  currency_issues currency prefix =
      if not (is_alpha u currency) || not (length currency == 3)
      then record {
        field_path = at (prefix ++ (key "currency" ∷ []));
        code = malformed_currency_code;
        message = currency_malformed currency;
        severity = error;
      }
        ∷ []
      else if not (text_eq currency (u.upper currency))
      then record {
        field_path = at (prefix ++ (key "currency" ∷ []));
        code = lowercase_currency_code;
        message = currency_should_be currency (u.upper currency);
        severity = warning;
      }
        ∷ []
      else []

  unfoldable pub check_price : Dish → Place → List ValidationIssue
  unfolding price_issues currency_issues
  check_price dish prefix =
      price_issues dish.price dish.currency prefix ++ currency_issues dish.currency prefix
