-- ===== src/Export/Billing/Accepted.antt =====
-- The pipeline never offers the exporter a batch that it would refuse.
