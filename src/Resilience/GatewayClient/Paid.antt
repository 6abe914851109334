-- ===== src/Resilience/GatewayClient/Paid.antt =====
-- What stands behind the answer that a payment went through: main's `create_payment` over `charge`.
